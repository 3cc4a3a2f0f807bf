-- ===== src/Scheduler/Shutdown.antt =====
-- A job that is submitted after the batcher of internal/scheduler/scheduler.go is gone.
use velocity_gateway.Common.{
  ℕ, ◌<◌, ◌≡◌, refl, sym, ap, ◌∙◌, Bool, true, List, [], ◌++◌, some, length, arith, inl, inr,
  Option-cases,
}
use velocity_gateway.Scheduler.State.{Job, Scheduler, submit, stop, Batcher, exited, Timer}
use velocity_gateway.Scheduler.Batcher.{
  take_at, receive, time_out, notice_stop, drain, launch, finish, tick, receive_at, time_out_at,
  notice_stop_at, drain_at, launch_at, has_slot,
}
use velocity_gateway.Scheduler.Reach.{
  Quiet, receives, times_out, notices_stop, drains, finishes, stops, ticks, Reach, start, accepts,
  rejects, quietly, launches,
}
use velocity_gateway.Scheduler.Fifo.{Reach-fifo}

module _ {R : Type 0} where
  receive_gone :
      (b : Batcher) (q : List Job) (s t : Scheduler R) → b ≡ exited → receive_at b q s ≡ some t → ⊥
  unfolding receive_at
  receive_gone exited q s t e h = cc
  receive_gone _ q s t e h = cc

  time_out_gone :
      (b : Batcher) (timer : Timer) (s t : Scheduler R)
      → b ≡ exited
      → time_out_at b timer s ≡ some t
      → ⊥
  unfolding time_out_at
  time_out_gone exited timer s t e h = cc
  time_out_gone _ timer s t e h = cc

  notice_stop_gone :
      (b : Batcher) (stopping : Bool) (s t : Scheduler R)
      → b ≡ exited
      → notice_stop_at b stopping s ≡ some t
      → ⊥
  unfolding notice_stop_at
  notice_stop_gone exited stopping s t e h = cc
  notice_stop_gone _ stopping s t e h = cc

  drain_gone :
      (b : Batcher) (q : List Job) (s t : Scheduler R) → b ≡ exited → drain_at b q s ≡ some t → ⊥
  unfolding drain_at
  drain_gone exited q s t e h = cc
  drain_gone _ q s t e h = cc

  launch_gone :
      (b : Batcher) (slot : Bool) (s : Scheduler R) (p : Job × Scheduler R)
      → b ≡ exited
      → launch_at b slot s ≡ some p
      → ⊥
  unfolding launch_at
  launch_gone exited slot s p e h = cc
  launch_gone _ slot s p e h = cc

  finish-batcher :
      (i : ℕ) (result : R) (s t : Scheduler R) → finish i result s ≡ some t → t.batcher ≡ s.batcher
  unfolding finish
  finish-batcher i result s t h = elim (Option-cases (take_at i s.running)) [
    | inl e ↦ absurd (ground arith)
    | inr (p, e) ↦ ground arith
  ]

  exited-Quiet : {s t : Scheduler R} → Quiet s t → s.batcher ≡ exited → t.batcher ≡ exited
  unfolding receive time_out notice_stop drain stop tick
  exited-Quiet {s} {t} (receives h) e = absurd (receive_gone s.batcher s.queue s t e h)
  exited-Quiet {s} {t} (times_out h) e = absurd (time_out_gone s.batcher s.timer s t e h)
  exited-Quiet {s} {t} (notices_stop h) e = absurd (notice_stop_gone s.batcher s.stopping s t e h)
  exited-Quiet {s} {t} (drains h) e = absurd (drain_gone s.batcher s.queue s t e h)
  exited-Quiet {s} {t} (finishes i result h) e = finish-batcher i result s t h ∙ e
  exited-Quiet (stops h) e = rw (← h) e
  exited-Quiet (ticks d h) e = rw (← h) e

  submit-batcher : (j : Job) (s : Scheduler R) → (submit j s).0.batcher ≡ s.batcher
  unfolding submit
  submit-batcher j s = ground arith

  exited_stays :
      {o s : Scheduler R} {accepted started : List Job}
      → o.batcher ≡ exited
      → Reach o s accepted started
      → (s.batcher ≡ exited) × (started ≡ [])
  unfolding launch
  exited_stays e start = (e, refl)
  exited_stays e (accepts {s} {t} j r h) =
      let (gone, none_started) = exited_stays e r in
      (
        ap (λ (p : Scheduler R × Bool). p.0.batcher) (sym h) ∙ submit-batcher j s ∙ gone,
        none_started,
      )
  exited_stays e (rejects {s} {t} j r h) =
      let (gone, none_started) = exited_stays e r in
      (
        ap (λ (p : Scheduler R × Bool). p.0.batcher) (sym h) ∙ submit-batcher j s ∙ gone,
        none_started,
      )
  exited_stays e (quietly r q) =
      let (gone, none_started) = exited_stays e r in (exited-Quiet q gone, none_started)
  exited_stays e (launches {s} {t} j r h) =
      let (gone, none_started) = exited_stays e r in
      absurd (launch_gone s.batcher (has_slot s) s (j, t) gone h)

  submit_room :
      (j : Job) (s : Scheduler R) → length s.queue < s.cfg.queue_capacity → (submit j s).1 ≡ true
  unfolding submit
  submit_room j s h = ground arith

  -- Once the batcher is gone, `Submit` still accepts a job while the queue has room, and no history
  -- from then on ever starts a job: all that is accepted stays in the queue.
  pub submit-stranded :
      {o s : Scheduler R} {accepted started : List Job} (j : Job)
      → o.batcher ≡ exited
      → Reach o s accepted started
      → length s.queue < s.cfg.queue_capacity
      → ((submit j s).1 ≡ true) × (started ≡ []) × (s.queue ≡ o.queue ++ accepted)
  submit-stranded {o} {s} j e r room =
      let (gone, none_started) = exited_stays e r in
      let order = Reach-fifo r in
      (submit_room j s room, none_started, rw (none_started, gone, e) at order)
