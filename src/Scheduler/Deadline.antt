-- ===== src/Scheduler/Deadline.antt =====
-- How long a batch waits in `runBatcher` of internal/scheduler/scheduler.go.
use velocity_gateway.Common.{
  ℕ, ◌+◌, ◌≤◌, ◌≡◌, refl, sym, ap, Bool, true, List, [], ◌∷◌, ◌++◌, some, length, arith, subst, inl,
  inr, Option-cases, of_some, if_cases, leb, ltb, ◌∙◌, Option, none,
}
use velocity_gateway.Scheduler.State.{
  Job, Scheduler, submit, stop, Batcher, waiting, dispatching, draining, exited, Timer, off, fired,
  armed,
}
use velocity_gateway.Scheduler.Batcher.{
  timer_at, take_at, received, receive, time_out, notice_stop, drain, finish, tick, flush_metrics,
  flush, receive_at, time_out_at, notice_stop_at, drain_at,
}
use velocity_gateway.Scheduler.Reach.{
  Quiet, receives, times_out, notices_stop, drains, finishes, stops, ticks, Reach, start, accepts,
  rejects, quietly, launches,
}
use velocity_gateway.Scheduler.Invariant.{Wakes}

-- Until one of its jobs has been started, a batch is waiting under a timer that fires in time, or being
-- handed over.
Held : ℕ → Batcher → Timer → Type 0
Held by (waiting []) timer = ⊥
Held by (waiting (j ∷ js)) timer = Wakes by timer
Held by (dispatching []) timer = ⊥
Held by (dispatching (j ∷ js)) timer = Unit {0}
Held by (draining []) timer = ⊥
Held by (draining (j ∷ js)) timer = Unit {0}
Held by exited timer = ⊥

timer_at-Wakes : (now by : ℕ) (timer : Timer) → Wakes by timer → Wakes by (timer_at now timer)
timer_at-Wakes now by off w = w
timer_at-Wakes now by fired w = tt
timer_at-Wakes now by (armed at) w = if_cases (Wakes by) (leb at now) (λ _. tt) (λ _. w)

timer_at-Held :
    (now by : ℕ) (b : Batcher) (timer : Timer) → Held by b timer → Held by b (timer_at now timer)
unfolding Held
timer_at-Held now by (waiting []) timer h = h
timer_at-Held now by (waiting (j ∷ js)) timer h = timer_at-Wakes now by timer h
timer_at-Held now by (dispatching []) timer h = h
timer_at-Held now by (dispatching (j ∷ js)) timer h = h
timer_at-Held now by (draining []) timer h = h
timer_at-Held now by (draining (j ∷ js)) timer h = h
timer_at-Held now by exited timer h = h

timer_fires : (now by : ℕ) (timer : Timer) → Wakes by timer → by ≤ now → timer_at now timer ≡ fired
timer_fires now by off w h = absurd w
timer_fires now by fired w h = refl
timer_fires now by (armed at) w h = ground arith

append-ne-nil : (j : Job) (js : List Job) → js ++ (j ∷ []) ≡ [] → ⊥
append-ne-nil j [] h = cc
append-ne-nil j (k ∷ js) h = cc

module _ {R : Type 0} (by : ℕ) where
  abbrev Holds : Scheduler R → Type 0
  Holds s = Held by s.batcher s.timer

  -- The first job of a batch arms the timer.
  first-Holds :
      (j : Job) (queue : List Job) (s : Scheduler R)
      → s.now + s.cfg.max_wait ≤ by
      → Holds (received [] j queue s)
  unfolding received flush flush_metrics Held
  first-Holds j queue s le = if_cases Holds (leb s.cfg.max_batch_size 1) (λ _. tt) (λ _. le)

  more-Holds :
      (k : Job) (js : List Job) (j : Job) (queue : List Job) (s : Scheduler R)
      → Wakes by s.timer
      → Holds (received (k ∷ js) j queue s)
  unfolding received flush flush_metrics Held
  more-Holds k js j queue s w =
      if_cases Holds (leb s.cfg.max_batch_size (length ((k ∷ js) ++ (j ∷ [])))) (λ _. tt) (λ _. w)

  receive_at-Holds :
      (b : Batcher) (queue : List Job) (s t : Scheduler R)
      → Held by b s.timer
      → receive_at b queue s ≡ some t
      → Holds t
  unfolding receive_at Held
  receive_at-Holds (waiting (k ∷ js)) (j ∷ queue) s t h e =
      of_some Holds e (more-Holds k js j queue s h)
  receive_at-Holds (waiting []) queue s t h e = absurd h
  receive_at-Holds _ _ s t h e = cc

  time_out_at-Holds :
      (b : Batcher) (timer : Timer) (s t : Scheduler R)
      → Held by b timer
      → time_out_at b timer s ≡ some t
      → Holds t
  unfolding time_out_at flush flush_metrics Held
  time_out_at-Holds (waiting (k ∷ js)) fired s t h e = of_some Holds e tt
  time_out_at-Holds (waiting []) timer s t h e = absurd h
  time_out_at-Holds _ _ s t h e = cc

  notice_stop_at-Holds :
      (b : Batcher) (stopping : Bool) (s t : Scheduler R)
      → Held by b s.timer
      → notice_stop_at b stopping s ≡ some t
      → Holds t
  unfolding notice_stop_at flush_metrics Held
  notice_stop_at-Holds (waiting (k ∷ js)) true s t h e = of_some Holds e tt
  notice_stop_at-Holds (waiting []) stopping s t h e = absurd h
  notice_stop_at-Holds _ _ s t h e = cc

  drain_at-Holds :
      (b : Batcher) (queue : List Job) (s t : Scheduler R)
      → Held by b s.timer
      → drain_at b queue s ≡ some t
      → Holds t
  unfolding drain_at Held
  drain_at-Holds (draining []) queue s t h e = absurd h
  drain_at-Holds _ queue s t h e = cc

  finish-Holds :
      (i : ℕ) (result : R) (s t : Scheduler R) → Holds s → finish i result s ≡ some t → Holds t
  unfolding finish
  finish-Holds i result s t h e = elim (Option-cases (take_at i s.running)) [
    | inl n ↦ absurd (ground (arith, n, e))
    | inr ((j, rest), r) ↦
        of_some Holds
          (sym (
              ap
                (λ o. elim o as (λ _. Option (Scheduler R)) [
                  | none ↦ none
                  | some (j, rest) ↦ some (record s { running = rest; done = (j, result) ∷ s.done })
                ])
                r)
            ∙ e)
          h
  ]

  Quiet-Holds : {s t : Scheduler R} → Quiet s t → Holds s → Holds t
  unfolding receive time_out notice_stop drain stop tick
  Quiet-Holds {s} {t} (receives e) h = receive_at-Holds s.batcher s.queue s t h e
  Quiet-Holds {s} {t} (times_out e) h = time_out_at-Holds s.batcher s.timer s t h e
  Quiet-Holds {s} {t} (notices_stop e) h = notice_stop_at-Holds s.batcher s.stopping s t h e
  Quiet-Holds {s} {t} (drains e) h = drain_at-Holds s.batcher s.queue s t h e
  Quiet-Holds {s} {t} (finishes i result e) h = finish-Holds i result s t h e
  Quiet-Holds (stops e) h = subst Holds e h
  Quiet-Holds {s} (ticks d e) h = subst Holds e (timer_at-Held (s.now + d) by s.batcher s.timer h)

  submit-Holds : (j : Job) (s : Scheduler R) → Holds s → Holds (submit j s).0
  unfolding submit
  submit-Holds j s h =
      if_cases (λ (p : Scheduler R × Bool). Holds p.0) (ltb (length s.queue) s.cfg.queue_capacity)
        (λ _. h) (λ _. h)

  Reach-Holds :
      {o s : Scheduler R} {accepted started : List Job}
      → Reach o s accepted started
      → started ≡ []
      → Holds o
      → Holds s
  Reach-Holds start none_started h = h
  Reach-Holds (accepts {s} {t} j r e) none_started h =
      subst (λ (p : Scheduler R × Bool). Holds p.0) e
        (submit-Holds j s (Reach-Holds r none_started h))
  Reach-Holds (rejects {s} {t} j r e) none_started h =
      subst (λ (p : Scheduler R × Bool). Holds p.0) e
        (submit-Holds j s (Reach-Holds r none_started h))
  Reach-Holds (quietly r q) none_started h = Quiet-Holds q (Reach-Holds r none_started h)
  Reach-Holds (launches {started = started} j r e) none_started h =
      absurd (append-ne-nil j started none_started)

  begun-Holds :
      (b : Batcher) (queue : List Job) (s t : Scheduler R)
      → s.now + s.cfg.max_wait ≤ by
      → b ≡ waiting []
      → receive_at b queue s ≡ some t
      → Holds t
  unfolding receive_at
  begun-Holds (waiting []) (j ∷ queue) s t le b e = of_some Holds e (first-Holds j queue s le)
  begun-Holds (waiting (k ∷ js)) queue s t le b e = cc
  begun-Holds _ queue s t le b e = cc

module _ {R : Type 0} where
  hands_over :
      (b : Batcher) (timer : Timer) (s : Scheduler R) (j : Job) (js : List Job)
      → b ≡ waiting (j ∷ js)
      → timer ≡ fired
      → (t : Scheduler R) × (time_out_at b timer s ≡ some t) × (t.batcher ≡ dispatching (j ∷ js))
  unfolding time_out_at
  hands_over b timer s j js e f = (
    record (flush_metrics (j ∷ js) (record s { timer = off })) { batcher = dispatching (j ∷ js) },
    rw (e, f),
    refl,
  )

  -- A batch is begun when the batcher, waiting without one, receives a job. Whatever happens from then on,
  -- further jobs of the batch included, as long as no job is started: once `MaxWait` has passed since
  -- the first job was received, a batcher that still waits finds its timer fired and can hand over exactly
  -- the batch that it holds.
  pub batch_deadline :
      {o s : Scheduler R} {accepted : List Job} (p : Scheduler R) (j : Job) (js : List Job) (d : ℕ)
      → p.batcher ≡ waiting []
      → receive p ≡ some o
      → Reach o s accepted []
      → s.batcher ≡ waiting (j ∷ js)
      → p.now + p.cfg.max_wait ≤ s.now + d
      → (t : Scheduler R) × (time_out (tick d s) ≡ some t) × (t.batcher ≡ dispatching (j ∷ js))
  unfolding receive time_out tick Held
  batch_deadline {o} {s} p j js d idle first r waits late =
      let by = p.now + p.cfg.max_wait in
      let begun = begun-Holds by p.batcher p.queue p o (omega arith) idle first in
      let held = Reach-Holds by r refl begun in
      let guarded : Held by (waiting (j ∷ js)) s.timer =
        subst (λ b. Held by b s.timer) waits held in
      hands_over s.batcher (timer_at (s.now + d) s.timer) (tick d s) j js waits
        (timer_fires (s.now + d) by s.timer guarded late)
