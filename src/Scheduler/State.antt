-- ===== src/Scheduler/State.antt =====
-- The types of internal/scheduler/scheduler.go, `New`, `Submit` and `Stop`. What the upstream returns
-- for a job has a type of the caller's.
use velocity_gateway.Common.{
  ℕ, ◌+◌, Bool, true, false, Text, List, [], ◌∷◌, ◌++◌, length, if◌then◌else◌, ltb,
}
use velocity_gateway.Common.Int64.{Int64, is_nonpos}

pub record Config : Type 0 where
  pub max_batch_size : Int64
  pub max_wait : Int64
  pub queue_capacity : Int64
  pub workers : Int64
  pub request_timeout : Int64

abbrev or_default : Int64 → Int64 → Int64
or_default n d = if is_nonpos n then d else n

-- The defaults that `New` puts in; durations are nanoseconds.
unfoldable with_defaults : Config → Config
with_defaults c = record {
  max_batch_size = or_default c.max_batch_size 1;
  max_wait = or_default c.max_wait 25_000_000;
  queue_capacity = or_default c.queue_capacity 1024;
  workers = or_default c.workers 8;
  request_timeout = or_default c.request_timeout 60_000_000_000;
}

-- A job as it is submitted, under a number that stands for its address.
pub record Job : Type 0 where
  pub id : ℕ
  pub model : Text
  pub stream : Bool
  pub body : Text
  pub submitted : ℕ

-- `time.Timer`: off, armed for a time, or fired with its value still in the channel.
pub data Timer : Type 0 where
  off fired : Timer
  armed : ℕ → Timer

-- Where the batcher goroutine stands, with its locals: at the `select` with the current batch, inside
-- `dispatchBatch` with the jobs that are left, in the drain loop after `stopCh`, or gone.
pub data Batcher : Type 0 where
  waiting dispatching draining : List Job → Batcher
  exited : Batcher

-- The scheduler's shared state. `running` are the goroutines that hold a slot of `workers`; `done`
-- are the jobs whose `Done` is closed, newest first. The last four are the metrics of the package.
pub record Scheduler (R : Type 0) : Type 0 where
  pub cfg : Config
  pub queue : List Job
  pub running : List Job
  pub done : List (Job × R)
  pub batcher : Batcher
  pub timer : Timer
  pub now : ℕ
  pub stopping : Bool
  pub queue_depth : ℕ
  pub rejections : ℕ
  pub batch_sizes : List ℕ

module _ {R : Type 0} where
  -- `New` and `Start`, with the timer stopped at once.
  unfoldable pub new_scheduler : Config → ℕ → Scheduler R
  unfolding with_defaults
  new_scheduler cfg now = record {
    cfg = with_defaults cfg;
    queue = [];
    running = [];
    done = [];
    batcher = waiting [];
    timer = off;
    now = now;
    stopping = false;
    queue_depth = 0;
    rejections = 0;
    batch_sizes = [];
  }

  -- `Submit`; `false` is `ErrQueueFull`.
  unfoldable pub submit : Job → Scheduler R → Scheduler R × Bool
  submit j s =
      if ltb (length s.queue) s.cfg.queue_capacity
      then (record s { queue = s.queue ++ (j ∷ []); queue_depth = length s.queue + 1 }, true)
      else (record s { rejections = s.rejections + 1 }, false)

  -- The first half of `Stop`; under `stopOnce` closing again does nothing.
  unfoldable pub stop : Scheduler R → Scheduler R
  stop s = record s { stopping = true }
