-- ===== src/Scheduler/Fifo.antt =====
-- No job of internal/scheduler/scheduler.go is lost, made up or overtaken.
use mathlib.Core.List.{append_assoc, append-nil}
use velocity_gateway.Common.{
  of_some, ℕ, ◌≡◌, refl, sym, ap, ◌∙◌, Bool, true, false, List, [], ◌∷◌, ◌++◌, some, if_cases,
  length, leb, arith, Option-cases, ◌≡⟨◌⟩◌, ◌∎, inl, inr,
}
use velocity_gateway.Scheduler.State.{
  Job, Scheduler, submit, stop, Batcher, waiting, dispatching, draining, exited, Timer, off, fired,
}
use velocity_gateway.Scheduler.Batcher.{
  dispatch_or_wait, arm, take_at, receive, time_out, notice_stop, drain, launch, finish, tick,
  received, flush, flush_metrics, receive_at, time_out_at, notice_stop_at, drain_at, launch_at,
  has_slot,
}
use velocity_gateway.Scheduler.Reach.{
  Quiet, receives, times_out, notices_stop, drains, finishes, stops, ticks, Reach, start, accepts,
  rejects, quietly, launches,
}

-- The jobs in the batcher's hands.
abbrev in_hand : Batcher → List Job
in_hand (waiting batch) = batch
in_hand (dispatching jobs) = jobs
in_hand (draining jobs) = jobs
in_hand exited = []

-- The jobs that were accepted and not yet started, oldest first.
abbrev pub pending : {R : Type 0} → Scheduler R → List Job
pending s = in_hand s.batcher ++ s.queue

in_hand-dispatch_or_wait : (js : List Job) → in_hand (dispatch_or_wait js) ≡ js
in_hand-dispatch_or_wait [] = refl
in_hand-dispatch_or_wait (j ∷ js) = refl

module _ {R : Type 0} where
  flush-pending : (batch : List Job) (s : Scheduler R) → pending (flush batch s) ≡ batch ++ s.queue
  unfolding flush
  flush-pending [] s = refl
  flush-pending (j ∷ js) s = refl

  received-pending :
      (batch : List Job) (j : Job) (q : List Job) (s : Scheduler R)
      → pending (received batch j q s) ≡ batch ++ (j ∷ q)
  unfolding received
  received-pending batch j q s =
      let batch' = batch ++ (j ∷ []) in
      let regroup : batch' ++ q ≡ batch ++ (j ∷ q) = append_assoc batch (j ∷ []) q in
      if_cases (λ (t : Scheduler R). pending t ≡ batch ++ (j ∷ q))
        (leb s.cfg.max_batch_size (length batch'))
        (λ _.
          flush-pending batch' (record s {
            queue = q;
            timer = arm batch s;
            batcher = waiting batch';
            queue_depth = length q;
          })
          ∙ regroup)
        (λ _. regroup)

  receive_at-pending :
      (b : Batcher) (q : List Job) (s t : Scheduler R)
      → receive_at b q s ≡ some t
      → pending t ≡ in_hand b ++ q
  unfolding receive_at
  receive_at-pending (waiting batch) (j ∷ q) s t h =
      of_some (λ (u : Scheduler R). pending u ≡ batch ++ (j ∷ q)) h (received-pending batch j q s)
  receive_at-pending (waiting batch) [] s t h = cc
  receive_at-pending (dispatching jobs) q s t h = ground arith
  receive_at-pending (draining jobs) q s t h = ground arith
  receive_at-pending exited q s t h = ground arith

  time_out_at-pending :
      (b : Batcher) (timer : Timer) (s t : Scheduler R)
      → time_out_at b timer s ≡ some t
      → pending t ≡ in_hand b ++ s.queue
  unfolding time_out_at
  time_out_at-pending (waiting batch) fired s t h =
      of_some (λ (u : Scheduler R). pending u ≡ batch ++ s.queue) h
        (flush-pending batch (record s { timer = off }))
  time_out_at-pending _ _ s t h = cc

  flush_metrics-queue :
      (batch : List Job) (s : Scheduler R) → (flush_metrics batch s).queue ≡ s.queue
  unfolding flush_metrics
  flush_metrics-queue [] s = refl
  flush_metrics-queue (j ∷ js) s = refl

  notice_stop_at-pending :
      (b : Batcher) (stopping : Bool) (s t : Scheduler R)
      → notice_stop_at b stopping s ≡ some t
      → pending t ≡ in_hand b ++ s.queue
  unfolding notice_stop_at
  notice_stop_at-pending (waiting batch) true s t h =
      of_some (λ (u : Scheduler R). pending u ≡ batch ++ s.queue) h
        (ap (◌++◌ batch) (flush_metrics-queue batch s))
  notice_stop_at-pending _ _ s t h = cc

  drain_at-pending :
      (b : Batcher) (q : List Job) (s t : Scheduler R)
      → s.queue ≡ q
      → drain_at b q s ≡ some t
      → pending t ≡ in_hand b ++ q
  unfolding drain_at
  drain_at-pending (draining []) (j ∷ q) s t e h = ground arith
  drain_at-pending (draining []) [] s t e h = ground arith
  drain_at-pending _ _ s t e h = ground arith

  launch_at-pending :
      (b : Batcher) (slot : Bool) (s : Scheduler R) (j : Job) (t : Scheduler R)
      → launch_at b slot s ≡ some (j, t)
      → j ∷ pending t ≡ in_hand b ++ s.queue
  unfolding launch_at
  launch_at-pending (dispatching (k ∷ [])) true s j t h = ground arith
  launch_at-pending (dispatching (k ∷ l ∷ js)) true s j t h = ground arith
  launch_at-pending (draining (k ∷ js)) true s j t h = ground arith
  launch_at-pending _ _ s j t h = ground arith

  finish-pending :
      (i : ℕ) (result : R) (s t : Scheduler R) → finish i result s ≡ some t → pending t ≡ pending s
  unfolding finish
  finish-pending i result s t h = elim (Option-cases (take_at i s.running)) [
    | inl e ↦ absurd (ground arith)
    | inr (p, e) ↦ ground arith
  ]

  -- A step that accepts and starts nothing leaves the pending jobs as they are, in order.
  Quiet-pending : {s t : Scheduler R} → Quiet s t → pending t ≡ pending s
  unfolding receive time_out notice_stop drain stop tick
  Quiet-pending {s} {t} (receives h) = receive_at-pending s.batcher s.queue s t h
  Quiet-pending {s} {t} (times_out h) = time_out_at-pending s.batcher s.timer s t h
  Quiet-pending {s} {t} (notices_stop h) = notice_stop_at-pending s.batcher s.stopping s t h
  Quiet-pending {s} {t} (drains h) = drain_at-pending s.batcher s.queue s t refl h
  Quiet-pending {s} {t} (finishes i result h) = finish-pending i result s t h
  Quiet-pending (stops h) = rw (← h)
  Quiet-pending (ticks d h) = rw (← h)

  submit-pending :
      (j : Job) (s t : Scheduler R) → submit j s ≡ (t, true) → pending t ≡ pending s ++ (j ∷ [])
  unfolding submit
  submit-pending j s t h =
      let same : (t.batcher ≡ s.batcher) × (t.queue ≡ s.queue ++ (j ∷ [])) =
        (ground arith, ground arith) in
      rw (same.0, same.1) (sym (append_assoc (in_hand s.batcher) s.queue (j ∷ [])))

  refused-pending : (j : Job) (s t : Scheduler R) → submit j s ≡ (t, false) → pending t ≡ pending s
  unfolding submit
  refused-pending j s t h =
      let same : (t.batcher ≡ s.batcher) × (t.queue ≡ s.queue) = (ground arith, ground arith) in
      rw (same.0, same.1)

  -- After any interleaving the jobs that were pending at first and those accepted since are, in this
  -- order, the jobs started and then those still pending: none is lost, doubled or overtaken.
  pub Reach-fifo :
      {o s : Scheduler R} {accepted started : List Job}
      → Reach o s accepted started
      → started ++ pending s ≡ pending o ++ accepted
  unfolding launch
  Reach-fifo start = sym (append-nil _)
  Reach-fifo {o} (accepts {s} {t} {accepted = acc} {started = st} j r h) =
      st ++ pending t
      ≡⟨ ap (◌++◌ st) (submit-pending j s t h) ⟩ st ++ (pending s ++ (j ∷ []))
      ≡⟨ sym (append_assoc st (pending s) (j ∷ [])) ⟩ (st ++ pending s) ++ (j ∷ [])
      ≡⟨ ap (λ l. l ++ (j ∷ [])) (Reach-fifo r) ⟩ (pending o ++ acc) ++ (j ∷ [])
      ≡⟨ append_assoc (pending o) acc (j ∷ []) ⟩ pending o ++ (acc ++ (j ∷ [])) ∎
  Reach-fifo (rejects {s} {t} {accepted = acc} {started = st} j r h) =
      ap (◌++◌ st) (refused-pending j s t h) ∙ Reach-fifo r
  Reach-fifo (quietly {s} {t} {accepted = acc} {started = st} r q) =
      ap (◌++◌ st) (Quiet-pending q) ∙ Reach-fifo r
  Reach-fifo (launches {s} {t} {accepted = acc} {started = st} j r h) =
      append_assoc st (j ∷ []) (pending t)
      ∙ ap (◌++◌ st) (launch_at-pending s.batcher (has_slot s) s j t h)
      ∙ Reach-fifo r
