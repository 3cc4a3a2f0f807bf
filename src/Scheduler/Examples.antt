-- ===== src/Scheduler/Examples.antt =====
-- A scheduler with batches of two, and the theorems on internal/scheduler applied to it.
use velocity_gateway.Common.{
  ℕ, ◌≡◌, refl, Bool, true, false, codes, List, [], ◌∷◌, ◌++◌, some, arith,
}
use velocity_gateway.Scheduler.State.{
  Config, Job, armed, waiting, dispatching, exited, Scheduler, new_scheduler, submit, stop,
}
use velocity_gateway.Scheduler.Batcher.{receive, time_out, launch, tick}
use velocity_gateway.Scheduler.Reach.{
  Reach, start, accepts, quietly, launches, receives, stops, ticks,
}
use velocity_gateway.Scheduler.Fifo.{pending, Reach-fifo}
use velocity_gateway.Scheduler.Invariant.{Inv, new-Inv}
use velocity_gateway.Scheduler.Bounds.{Reach-Inv}
use velocity_gateway.Scheduler.Deadline.{batch_deadline}
use velocity_gateway.Scheduler.Shutdown.{submit-stranded}
use velocity_gateway.Scheduler.Drain.{stop_completes}

abbrev settings : Config
settings = record {
  max_batch_size = 2;
  max_wait = 25_000_000;
  queue_capacity = 8;
  workers = 1;
  request_timeout = 60_000_000_000;
}

abbrev job : ℕ → Job
job n = record {
  id = n;
  model = codes "gpt-4o-mini";
  stream = false;
  body = codes "hi";
  submitted = n;
}

abbrev Sched : Type 0
Sched = Scheduler Bool

abbrev fresh : Sched
fresh = new_scheduler settings 0

-- The state after one job, after it was received, after a second job filled the batch.
abbrev one : Sched
one = (submit (job 1) fresh).0

abbrev held : Sched
held = record one {
  queue = [];
  timer = armed 25_000_000;
  batcher = waiting (job 1 ∷ []);
  queue_depth = 0;
}

abbrev two : Sched
two = (submit (job 2) held).0

abbrev full : Sched
full = record two {
  queue = [];
  batcher = dispatching (job 1 ∷ job 2 ∷ []);
  queue_depth = 0;
  batch_sizes = 2 ∷ [];
}

abbrev launched : Sched
launched = record full { running = job 1 ∷ []; batcher = dispatching (job 2 ∷ []) }

to_held : Reach fresh held (job 1 ∷ []) []
unfolding receive submit new_scheduler
to_held = quietly (accepts {t = one} (job 1) start refl) (receives refl)

to_launched : Reach fresh launched (job 1 ∷ job 2 ∷ []) (job 1 ∷ [])
unfolding receive launch submit new_scheduler
to_launched =
    launches {s = full} (job 1) (quietly (accepts {t = two} (job 2) to_held refl) (receives refl))
      refl

Reach-fifo_example : (job 1 ∷ []) ++ pending launched ≡ pending fresh ++ (job 1 ∷ job 2 ∷ [])
Reach-fifo_example = Reach-fifo to_launched

Reach-Inv_example : Inv launched
Reach-Inv_example = Reach-Inv (new-Inv settings 0) to_launched

held-Inv : Inv held
held-Inv = Reach-Inv (new-Inv settings 0) to_held

-- One more job arrives while the batch waits, and 10 milliseconds pass.
waited : Reach held (tick 10_000_000 (submit (job 2) held).0) (job 2 ∷ []) []
unfolding submit tick receive new_scheduler
waited = quietly (accepts {t = (submit (job 2) held).0} (job 2) start refl) (ticks 10_000_000 refl)

batch_deadline_example :
    (t : Sched) × (time_out (tick 15_000_000 (tick 10_000_000 (submit (job 2) held).0)) ≡ some t)
    × (t.batcher ≡ dispatching (job 1 ∷ []))
unfolding submit tick receive new_scheduler
batch_deadline_example =
    batch_deadline (submit (job 1) fresh).0 (job 1) [] 15_000_000 refl refl waited refl
      (omega arith)

-- The scheduler after `Stop` on an idle queue.
abbrev stopped : Sched
stopped = stop fresh

abbrev gone : Sched
gone = record stopped { batcher = exited }

late : Reach gone (submit (job 3) gone).0 (job 3 ∷ []) []
unfolding submit stop new_scheduler
late = accepts {t = (submit (job 3) gone).0} (job 3) start refl

abbrev none_started : List Job
none_started = []

submit-stranded_example :
    let s = (submit (job 3) gone).0 in
    ((submit (job 4) s).1 ≡ true) × (none_started ≡ []) × (s.queue ≡ gone.queue ++ (job 3 ∷ []))
unfolding submit stop new_scheduler
submit-stranded_example = submit-stranded (job 4) refl late (omega arith)

stop_completes_example :
    (t : Sched) × Reach (stop held) t [] (pending (stop held))
    × (t.batcher ≡ exited)
    × (t.queue ≡ [])
unfolding submit stop new_scheduler
stop_completes_example =
    stop_completes true (stop held) (Reach-Inv held-Inv (quietly start (stops refl))) refl (λ e. cc)
