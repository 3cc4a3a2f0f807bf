-- ===== src/Scheduler/Batcher.antt =====
-- `runBatcher` and `dispatchBatch` of internal/scheduler/scheduler.go, as steps of the batcher
-- goroutine, of the workers and of the clock. A step that cannot be taken is `none`.
use velocity_gateway.Common.{
  ℕ, zero, suc, ◌+◌, Bool, true, List, [], ◌∷◌, ◌++◌, Option, none, some, length, if◌then◌else◌,
  ltb, leb,
}
use velocity_gateway.Scheduler.State.{
  Job, Timer, off, fired, armed, Batcher, waiting, dispatching, draining, exited, Scheduler,
}

-- `for _, j := range b` is over when no job is left: the batcher is back at the `select`.
abbrev pub dispatch_or_wait : List Job → Batcher
dispatch_or_wait [] = waiting []
dispatch_or_wait (j ∷ js) = dispatching (j ∷ js)

-- The running job at an index, and the others.
unfoldable pub take_at : ℕ → List Job → Option (Job × List Job)
take_at i [] = none
take_at zero (j ∷ js) = some (j, js)
take_at (suc i) (j ∷ js) = elim (take_at i js) [ none ↦ none | some (k, rest) ↦ some (k, j ∷ rest) ]

-- An armed timer fires when its time has come.
abbrev pub timer_at : ℕ → Timer → Timer
timer_at now off = off
timer_at now fired = fired
timer_at now (armed at) = if leb at now then fired else armed at

module _ {R : Type 0} where
  -- The metrics of `flush`; an empty batch is none.
  unfoldable pub flush_metrics : List Job → Scheduler R → Scheduler R
  flush_metrics [] s = s
  flush_metrics (j ∷ js) s = record s {
    queue_depth = length s.queue;
    batch_sizes = length (j ∷ js) ∷ s.batch_sizes;
  }

  unfoldable pub flush : List Job → Scheduler R → Scheduler R
  unfolding flush_metrics
  flush batch s = record (flush_metrics batch s) { batcher = dispatch_or_wait batch }

  -- The first job of a batch arms the timer, after a value that may be in its channel is drained.
  abbrev pub arm : List Job → Scheduler R → Timer
  arm [] s = armed (s.now + s.cfg.max_wait)
  arm (j ∷ js) s = s.timer

  -- `case j := <-s.queue`
  unfoldable pub received : List Job → Job → List Job → Scheduler R → Scheduler R
  unfolding flush
  received batch j queue s =
      let batch' = batch ++ (j ∷ []) in
      let s' = record s {
        queue = queue;
        timer = arm batch s;
        batcher = waiting batch';
        queue_depth = length queue;
      } in
      if leb s.cfg.max_batch_size (length batch') then flush batch' s' else s'

  unfoldable pub receive_at : Batcher → List Job → Scheduler R → Option (Scheduler R)
  unfolding received
  receive_at (waiting batch) (j ∷ queue) s = some (received batch j queue s)
  receive_at _ _ s = none

  unfoldable pub receive : Scheduler R → Option (Scheduler R)
  unfolding receive_at
  receive s = receive_at s.batcher s.queue s

  -- `case <-timer.C`
  unfoldable pub time_out_at : Batcher → Timer → Scheduler R → Option (Scheduler R)
  unfolding flush
  time_out_at (waiting batch) fired s = some (flush batch (record s { timer = off }))
  time_out_at _ _ s = none

  unfoldable pub time_out : Scheduler R → Option (Scheduler R)
  unfolding time_out_at
  time_out s = time_out_at s.batcher s.timer s

  -- `case <-s.stopCh`: the batch is flushed, and the drain loop follows.
  unfoldable pub notice_stop_at : Batcher → Bool → Scheduler R → Option (Scheduler R)
  unfolding flush_metrics
  notice_stop_at (waiting batch) true s =
      some (record (flush_metrics batch s) { batcher = draining batch })
  notice_stop_at _ _ s = none

  unfoldable pub notice_stop : Scheduler R → Option (Scheduler R)
  unfolding notice_stop_at
  notice_stop s = notice_stop_at s.batcher s.stopping s

  -- The drain loop: one job as a batch of its own, or the end.
  unfoldable pub drain_at : Batcher → List Job → Scheduler R → Option (Scheduler R)
  drain_at (draining []) (j ∷ queue) s =
      some (record s { queue = queue; batcher = draining (j ∷ []) })
  drain_at (draining []) [] s = some (record s { batcher = exited })
  drain_at _ _ s = none

  unfoldable pub drain : Scheduler R → Option (Scheduler R)
  unfolding drain_at
  drain s = drain_at s.batcher s.queue s

  -- `s.workers <- struct{}{}` and `go`: waits until a slot is free.
  abbrev pub has_slot : Scheduler R → Bool
  has_slot s = ltb (length s.running) s.cfg.workers

  unfoldable pub launch_at : Batcher → Bool → Scheduler R → Option (Job × Scheduler R)
  launch_at (dispatching (j ∷ js)) true s =
      some (j, record s { running = s.running ++ (j ∷ []); batcher = dispatch_or_wait js })
  launch_at (draining (j ∷ js)) true s =
      some (j, record s { running = s.running ++ (j ∷ []); batcher = draining js })
  launch_at _ _ s = none

  unfoldable pub launch : Scheduler R → Option (Job × Scheduler R)
  unfolding launch_at
  launch s = launch_at s.batcher (has_slot s) s

  -- A worker's goroutine ends: the job has its response or error, `Done` is closed, the slot is free.
  unfoldable pub finish : ℕ → R → Scheduler R → Option (Scheduler R)
  unfolding take_at
  finish i result s = elim (take_at i s.running) [
    | none ↦ none
    | some (j, rest) ↦ some (record s { running = rest; done = (j, result) ∷ s.done })
  ]

  -- Time passes.
  unfoldable pub tick : ℕ → Scheduler R → Scheduler R
  tick d s = record s { now = s.now + d; timer = timer_at (s.now + d) s.timer }
