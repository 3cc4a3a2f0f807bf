-- ===== src/Scheduler/Invariant.antt =====
-- The bounds that internal/scheduler/scheduler.go keeps: of its queue, its workers and its batches,
-- and the timer that guards a waiting batch.
use velocity_gateway.Common.{
  ℕ, suc, ◌+◌, ◌≤◌, ◌<◌, ◌≡◌, refl, subst, Bool, true, List, [], ◌∷◌, ◌++◌, some, if_cases, of_some,
  length, length-append, All, ltb, arith,
}
use velocity_gateway.Scheduler.State.{
  Config, Job, Scheduler, new_scheduler, submit, Batcher, waiting, dispatching, draining, exited,
  Timer, off, fired, armed,
}
use velocity_gateway.Scheduler.Batcher.{dispatch_or_wait, flush, flush_metrics, launch_at, has_slot}

-- A timer that will wake the batcher within the wait.
abbrev pub Wakes : ℕ → Timer → Type 0
Wakes by off = ⊥
Wakes by fired = Unit {0}
Wakes by (armed at) = at ≤ by

-- Between two steps of the batcher: a waiting batch is below the limit, and under a timer unless it
-- is empty; a batch in dispatch is within the limit, and never empty.
abbrev pub InBounds : ℕ → ℕ → Batcher → Timer → Type 0
InBounds limit by (waiting []) timer = Unit {0}
InBounds limit by (waiting (j ∷ js)) timer = (suc (length js) < limit) × Wakes by timer
InBounds limit by (dispatching []) timer = ⊥
InBounds limit by (dispatching (j ∷ js)) timer = suc (length js) ≤ limit
InBounds limit by (draining js) timer = length js ≤ limit
InBounds limit by exited timer = Unit {0}

pub record Inv {R : Type 0} (s : Scheduler R) : Type 0 where
  pub limit_pos : 0 < s.cfg.max_batch_size
  pub workers_pos : 0 < s.cfg.workers
  pub queue_bounded : length s.queue ≤ s.cfg.queue_capacity
  pub workers_bounded : length s.running ≤ s.cfg.workers
  pub batch_bounded : InBounds s.cfg.max_batch_size (s.now + s.cfg.max_wait) s.batcher s.timer
  pub sizes_bounded : All (λ n. (0 < n) × (n ≤ s.cfg.max_batch_size)) s.batch_sizes

-- The bound on the batcher of a state, with the batcher as it is known to be.
abbrev pub At : {R : Type 0} → Batcher → Scheduler R → Type 0
At b s = InBounds s.cfg.max_batch_size (s.now + s.cfg.max_wait) b s.timer

module _ {R : Type 0} where
  -- The sections of a state's invariant that its batcher has no part in.
  pub record Frame (s : Scheduler R) : Type 0 where
    pub limit_pos : 0 < s.cfg.max_batch_size
    pub workers_pos : 0 < s.cfg.workers
    pub queue_bounded : length s.queue ≤ s.cfg.queue_capacity
    pub workers_bounded : length s.running ≤ s.cfg.workers
    pub sizes_bounded : All (λ n. (0 < n) × (n ≤ s.cfg.max_batch_size)) s.batch_sizes

  pub frame : {s : Scheduler R} → Inv s → Frame s
  frame v = record {
    limit_pos = v.limit_pos;
    workers_pos = v.workers_pos;
    queue_bounded = v.queue_bounded;
    workers_bounded = v.workers_bounded;
    sizes_bounded = v.sizes_bounded;
  }

  pub with_batcher : {s : Scheduler R} → Frame s → At s.batcher s → Inv s
  with_batcher f a = record {
    limit_pos = f.limit_pos;
    workers_pos = f.workers_pos;
    queue_bounded = f.queue_bounded;
    workers_bounded = f.workers_bounded;
    batch_bounded = a;
    sizes_bounded = f.sizes_bounded;
  }

  pub at : {s : Scheduler R} (b : Batcher) → Inv s → s.batcher ≡ b → At b s
  at {s} b v e = subst (λ c. At c s) e v.batch_bounded

  dispatch_or_wait-At :
      (js : List Job) (s : Scheduler R)
      → length js ≤ s.cfg.max_batch_size
      → At (dispatch_or_wait js) s
  dispatch_or_wait-At [] s h = tt
  dispatch_or_wait-At (j ∷ js) s h = h

  pub new-Inv : (c : Config) (now : ℕ) → Inv (new_scheduler {R = R} c now)
  unfolding new_scheduler
  new-Inv c now = record {
    limit_pos = ground arith;
    workers_pos = ground arith;
    queue_bounded = omega arith;
    workers_bounded = omega arith;
    batch_bounded = tt;
    sizes_bounded = tt;
  }

  pub submit-Inv : (j : Job) (s : Scheduler R) → Inv s → Inv (submit j s).0
  unfolding submit
  submit-Inv j s v =
      if_cases (λ (p : Scheduler R × Bool). Inv p.0) (ltb (length s.queue) s.cfg.queue_capacity)
        (λ room. record {
          limit_pos = v.limit_pos;
          workers_pos = v.workers_pos;
          queue_bounded = ground (arith, length-append s.queue (j ∷ []));
          workers_bounded = v.workers_bounded;
          batch_bounded = v.batch_bounded;
          sizes_bounded = v.sizes_bounded;
        })
        (λ full. record {
          limit_pos = v.limit_pos;
          workers_pos = v.workers_pos;
          queue_bounded = v.queue_bounded;
          workers_bounded = v.workers_bounded;
          batch_bounded = v.batch_bounded;
          sizes_bounded = v.sizes_bounded;
        })

  launched :
      (s : Scheduler R) (j : Job) (b : Batcher)
      → Inv s
      → has_slot s ≡ true
      → At b s
      → Inv (record s { running = s.running ++ (j ∷ []); batcher = b })
  launched s j b v slot a = record {
    limit_pos = v.limit_pos;
    workers_pos = v.workers_pos;
    queue_bounded = v.queue_bounded;
    workers_bounded = ground (arith, length-append s.running (j ∷ []));
    batch_bounded = a;
    sizes_bounded = v.sizes_bounded;
  }

  pub launch_at-Inv :
      (b : Batcher) (slot : Bool) (s : Scheduler R) (j : Job) (t : Scheduler R)
      → s.batcher ≡ b
      → has_slot s ≡ slot
      → Inv s
      → launch_at b slot s ≡ some (j, t)
      → Inv t
  unfolding launch_at
  launch_at-Inv (dispatching (k ∷ js)) true s j t e f v h =
      let a : At (dispatching (k ∷ js)) s = at (dispatching (k ∷ js)) v e in
      of_some (λ (p : Job × Scheduler R). Inv p.1) h
        (launched s k (dispatch_or_wait js) v f (dispatch_or_wait-At js s (omega arith)))
  launch_at-Inv (draining (k ∷ js)) true s j t e f v h =
      let a : At (draining (k ∷ js)) s = at (draining (k ∷ js)) v e in
      of_some (λ (p : Job × Scheduler R). Inv p.1) h (launched s k (draining js) v f (omega arith))
  launch_at-Inv _ _ s j t e f v h = absurd (ground arith)

  pub flush_metrics-Frame :
      (batch : List Job) (s : Scheduler R)
      → Frame s
      → length batch ≤ s.cfg.max_batch_size
      → Frame (flush_metrics batch s)
  unfolding flush_metrics
  flush_metrics-Frame [] s f h = f
  flush_metrics-Frame (j ∷ js) s f h = record {
    limit_pos = f.limit_pos;
    workers_pos = f.workers_pos;
    queue_bounded = f.queue_bounded;
    workers_bounded = f.workers_bounded;
    sizes_bounded = ((omega arith, h), f.sizes_bounded);
  }

  pub flush_metrics-cfg : (batch : List Job) (s : Scheduler R) → (flush_metrics batch s).cfg ≡ s.cfg
  unfolding flush_metrics
  flush_metrics-cfg [] s = refl
  flush_metrics-cfg (j ∷ js) s = refl

  pub flush-Inv :
      (batch : List Job) (s : Scheduler R)
      → Frame s
      → length batch ≤ s.cfg.max_batch_size
      → Inv (flush batch s)
  unfolding flush
  flush-Inv batch s f h =
      let g = flush_metrics-Frame batch s f h in
      record {
        limit_pos = g.limit_pos;
        workers_pos = g.workers_pos;
        queue_bounded = g.queue_bounded;
        workers_bounded = g.workers_bounded;
        batch_bounded =
            dispatch_or_wait-At batch (flush_metrics batch s) (rw (flush_metrics-cfg batch s) h);
        sizes_bounded = g.sizes_bounded;
      }

  pub waiting_within :
      (batch : List Job) (s : Scheduler R)
      → Inv s
      → At (waiting batch) s
      → length batch < s.cfg.max_batch_size
  waiting_within [] s v a = v.limit_pos
  waiting_within (j ∷ js) s v a = a.0
