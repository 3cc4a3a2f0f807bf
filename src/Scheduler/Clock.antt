-- ===== src/Scheduler/Clock.antt =====
-- The end of a worker, the clock and `Stop` of internal/scheduler/scheduler.go keep the invariant.
use velocity_gateway.Common.{
  ℕ, zero, suc, ◌+◌, ◌≡◌, sym, ◌∙◌, List, [], ◌∷◌, some, if_cases, of_some, length, leb, arith,
  Option-cases, inl, inr,
}
use velocity_gateway.Scheduler.State.{
  Job, Scheduler, stop, Batcher, waiting, dispatching, draining, exited, Timer, off, fired, armed,
}
use velocity_gateway.Scheduler.Batcher.{take_at, timer_at, finish, tick}
use velocity_gateway.Scheduler.Invariant.{Inv, Wakes, InBounds, At, at}

take_at-length :
    (i : ℕ) (js : List Job) (j : Job) (rest : List Job)
    → take_at i js ≡ some (j, rest)
    → length js ≡ suc (length rest)
unfolding take_at
take_at-length i [] j rest h = absurd (ground arith)
take_at-length zero (k ∷ js) j rest h = ground arith
take_at-length (suc i) (k ∷ js) j rest h = elim (Option-cases (take_at i js)) [
  | inl e ↦ absurd (ground arith)
  | inr ((l, others), e) ↦ ground (arith, take_at-length i js l others e)
]

tick_Wakes : (now d by : ℕ) (timer : Timer) → Wakes by timer → Wakes (by + d) (timer_at now timer)
tick_Wakes now d by off w = absurd w
tick_Wakes now d by fired w = tt
tick_Wakes now d by (armed at) w =
    if_cases (Wakes (by + d)) (leb at now) (λ _. tt) (λ _. omega arith)

module _ {R : Type 0} where
  pub finish-Inv :
      (i : ℕ) (result : R) (s t : Scheduler R) → Inv s → finish i result s ≡ some t → Inv t
  unfolding finish
  finish-Inv i result s t v h = elim (Option-cases (take_at i s.running)) [
    | inl e ↦ absurd (ground arith)
    | inr ((j, rest), e) ↦
        let same : finish i result s
            ≡ some (record s { running = rest; done = (j, result) ∷ s.done }) =
          ground arith in
        of_some (λ (u : Scheduler R). Inv u) (sym same ∙ h)
          (record {
            limit_pos = v.limit_pos;
            workers_pos = v.workers_pos;
            queue_bounded = v.queue_bounded;
            workers_bounded = omega (arith, v.workers_bounded, take_at-length i s.running j rest e);
            batch_bounded = v.batch_bounded;
            sizes_bounded = v.sizes_bounded;
          })
  ]

  tick_InBounds :
      (d : ℕ) (b : Batcher) (s : Scheduler R)
      → At b s
      → InBounds s.cfg.max_batch_size (s.now + d + s.cfg.max_wait) b (timer_at (s.now + d) s.timer)
  tick_InBounds d (waiting []) s a = tt
  tick_InBounds d (waiting (j ∷ js)) s a =
      let later : s.now + d + s.cfg.max_wait ≡ s.now + s.cfg.max_wait + d = omega arith in
      (a.0, rw later (tick_Wakes (s.now + d) d (s.now + s.cfg.max_wait) s.timer a.1))
  tick_InBounds d (dispatching []) s a = a
  tick_InBounds d (dispatching (j ∷ js)) s a = a
  tick_InBounds d (draining js) s a = a
  tick_InBounds d exited s a = tt

  pub tick-Inv : (d : ℕ) (s : Scheduler R) → Inv s → Inv (tick d s)
  unfolding tick
  tick-Inv d s v = record {
    limit_pos = v.limit_pos;
    workers_pos = v.workers_pos;
    queue_bounded = v.queue_bounded;
    workers_bounded = v.workers_bounded;
    batch_bounded = tick_InBounds d s.batcher s v.batch_bounded;
    sizes_bounded = v.sizes_bounded;
  }

  pub stop-Inv : (s : Scheduler R) → Inv s → Inv (stop s)
  unfolding stop
  stop-Inv s v = record {
    limit_pos = v.limit_pos;
    workers_pos = v.workers_pos;
    queue_bounded = v.queue_bounded;
    workers_bounded = v.workers_bounded;
    batch_bounded = v.batch_bounded;
    sizes_bounded = v.sizes_bounded;
  }
