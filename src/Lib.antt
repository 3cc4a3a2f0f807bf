-- ===== src/Lib.antt =====
-- Velo is a gateway in front of LLM servers: it authenticates a request, limits its rate, answers it
-- from a semantic cache or puts it into a scheduler, which forms small batches and hands each job to a
-- router, which picks a backend and retries on another one. This library models the parts that decide:
--
-- Router: internal/router. Router/Backend has a backend and its counters, Router/State `New` and the
--   health checks, Router/Selection `pick` and `weightedPick`, Router/Dispatch `Do`, `doOnce` and the
--   body that counts a request out. A request runs as a loop over its attempts; before each pick and
--   while the upstream works, other goroutines do any list of actions to the pool, which is an argument,
--   as are the random numbers and the upstream's answers. Router/Traffic cuts the same loop into turns,
--   which any number of requests take in any order.
-- Scheduler: internal/scheduler. Scheduler/State has the types, `New`, `Submit` and `Stop`,
--   Scheduler/Batcher the steps of `runBatcher` and of the workers, Scheduler/Reach every interleaving
--   of these with submitters and the clock. What the dispatcher returns for a job has a type of its own.
-- RateLimit: internal/ratelimit. RateLimit/Bucket has both limiters and the Lua script, over the
--   float operations of RateLimit/Arith, which are a parameter. The theorems on quantities take exact
--   arithmetic in billionths of a token; rounding of float64 is not modelled.
-- Cache: internal/cache. Cache/Store has the store in memory, Cache/Pgvector the one in PostgreSQL over
--   a database that is a parameter, Cache/Semantic `Lookup` and `Store` over an interface of a store and
--   any embedder, Cache/Embedder and Cache/OpenAi the two embedders, Cache/Vector the similarity over
--   float operations that are a parameter. Cache/Contract has what the cache relies on in a store, with
--   both stores as instances.
-- Gateway: internal/gateway. Gateway/Auth has the bearer tokens, Gateway/Server the routes behind them,
--   Gateway/Stream the copy of an upstream stream, Gateway/Sse and Gateway/Replay the stream that a
--   cached entry is replayed as, Gateway/Handler and Gateway/Pipeline `chatHandler` as stages over the
--   limiter, the cache, the scheduler and the wait for a job, which are a record of functions on a state
--   of their own; the JSON coders are a parameter. Gateway/System fills that record with any limiter
--   or none and with the cache of this library, for requests that are answered one after another, and
--   keeps a list of the calls of the cache, which only theorems read.
-- Command: cmd/velo. Command/Build has `serveCmd` and `buildCache`: what is built from a configuration.
-- Mock: cmd/mock-backend. Mock/Tokens has the tokens that are answered, Mock/Server `handleChat`.
-- Load: bench/cmd/load. Load/Calls has `loadPrompts` and `callStream` over what the gateway answers and
--   the clock, Load/Workers the steps of `runWorkload`, Load/Report `percentile` over the function that
--   gives the index. The tables that are printed are not modelled.
-- Config: internal/config. Config/Types has the structs, Config/Load `Default`, `Load` and `applyEnv`
--   over the decoders, which are parameters, Config/Csv the two parsers of lists.
--
-- Go's int and int64 are numbers below 2^64 read in two's complement, with wrap-around (Common/Int64);
-- strings are lists of code points. A mutex-guarded section or an atomic is one step. The loop of `Do`
-- recurses on the attempts that are left, and that of `buildCache` on the rounds, which are their bounds
-- in the source; nothing else runs on fuel.
--
-- Not modelled: the HTTP client and server, JSON, PostgreSQL and Redis but for the script, of which only
-- what is documented is assumed; the Prometheus collectors apart from the calls that are logged; flags,
-- logging and the metrics listener of the commands.
pub mod Common
pub mod Config
pub mod Router
pub mod Scheduler
pub mod RateLimit
pub mod Cache
pub mod Gateway
pub mod Mock
pub mod Command
pub mod Load
