-- ===== src/Scheduler/Bounds.antt =====
-- Every step of internal/scheduler/scheduler.go keeps the invariant.
use velocity_gateway.Common.{
  ◌+◌, ◌≤◌, ◌<◌, ◌≡◌, refl, ap, subst, Bool, true, List, [], ◌∷◌, ◌++◌, some, if_cases, of_some,
  length, length-append, leb, arith,
}
use velocity_gateway.Scheduler.State.{Job, Scheduler, Batcher, waiting, draining, Timer, off, fired}
use velocity_gateway.Scheduler.Batcher.{
  arm, received, receive, time_out, notice_stop, drain, launch, receive_at, time_out_at,
  notice_stop_at, drain_at, has_slot,
}
use velocity_gateway.Scheduler.Reach.{
  Quiet, receives, times_out, notices_stop, drains, finishes, stops, ticks, Reach, start, accepts,
  rejects, quietly, launches,
}
use velocity_gateway.Scheduler.Invariant.{
  Inv, InBounds, At, Frame, frame, with_batcher, at, submit-Inv, launch_at-Inv, flush_metrics-Frame,
  flush_metrics-cfg, flush-Inv, waiting_within,
}
use velocity_gateway.Scheduler.Clock.{finish-Inv, tick-Inv, stop-Inv}

module _ {R : Type 0} where
  still_waiting :
      (batch : List Job) (j : Job) (s : Scheduler R)
      → At (waiting batch) s
      → length (batch ++ (j ∷ [])) < s.cfg.max_batch_size
      → InBounds s.cfg.max_batch_size
          (s.now + s.cfg.max_wait)
          (waiting (batch ++ (j ∷ [])))
          (arm batch s)
  still_waiting [] j s a h = (h, omega arith)
  still_waiting (k ∷ ks) j s a h = (h, a.1)

  received-Inv :
      (batch : List Job) (j : Job) (q : List Job) (s : Scheduler R)
      → Inv s
      → s.batcher ≡ waiting batch
      → s.queue ≡ j ∷ q
      → Inv (received batch j q s)
  unfolding received
  received-Inv batch j q s v e f =
      let batch' = batch ++ (j ∷ []) in
      let a : At (waiting batch) s = at (waiting batch) v e in
      let within = waiting_within batch s v a in
      let grown = length-append batch (j ∷ []) in
      let shorter : length q ≤ s.cfg.queue_capacity = omega (arith, v.queue_bounded, ap length f) in
      let t : Scheduler R = record s {
        queue = q;
        timer = arm batch s;
        batcher = waiting batch';
        queue_depth = length q;
      } in
      let g : Frame t = record {
        limit_pos = v.limit_pos;
        workers_pos = v.workers_pos;
        queue_bounded = shorter;
        workers_bounded = v.workers_bounded;
        sizes_bounded = v.sizes_bounded;
      } in
      if_cases (λ (u : Scheduler R). Inv u) (leb s.cfg.max_batch_size (length batch'))
        (λ _. flush-Inv batch' t g (omega arith))
        (λ less. with_batcher {s = t} g (still_waiting batch j s a (ground arith)))

  receive_at-Inv :
      (b : Batcher) (q : List Job) (s t : Scheduler R)
      → s.batcher ≡ b
      → s.queue ≡ q
      → Inv s
      → receive_at b q s ≡ some t
      → Inv t
  unfolding receive_at
  receive_at-Inv (waiting batch) (j ∷ q) s t e f v h =
      of_some (λ (u : Scheduler R). Inv u) h (received-Inv batch j q s v e f)
  receive_at-Inv (waiting batch) [] s t e f v h = absurd (cc)
  receive_at-Inv _ _ s t e f v h = absurd (ground arith)

  time_out_at-Inv :
      (b : Batcher) (timer : Timer) (s t : Scheduler R)
      → s.batcher ≡ b
      → Inv s
      → time_out_at b timer s ≡ some t
      → Inv t
  unfolding time_out_at
  time_out_at-Inv (waiting batch) fired s t e v h =
      let within = waiting_within batch s v (at (waiting batch) v e) in
      of_some (λ (u : Scheduler R). Inv u) h
        (flush-Inv batch (record s { timer = off })
          (record {
            limit_pos = v.limit_pos;
            workers_pos = v.workers_pos;
            queue_bounded = v.queue_bounded;
            workers_bounded = v.workers_bounded;
            sizes_bounded = v.sizes_bounded;
          })
          (omega arith))
  time_out_at-Inv _ _ s t e v h = absurd (ground arith)

  notice_stop_at-Inv :
      (b : Batcher) (stopping : Bool) (s t : Scheduler R)
      → s.batcher ≡ b
      → Inv s
      → notice_stop_at b stopping s ≡ some t
      → Inv t
  unfolding notice_stop_at
  notice_stop_at-Inv (waiting batch) true s t e v h =
      let within = waiting_within batch s v (at (waiting batch) v e) in
      let small : length batch ≤ s.cfg.max_batch_size = omega arith in
      let g = flush_metrics-Frame batch s (frame v) small in
      of_some (λ (u : Scheduler R). Inv u) h
        (record {
          limit_pos = g.limit_pos;
          workers_pos = g.workers_pos;
          queue_bounded = g.queue_bounded;
          workers_bounded = g.workers_bounded;
          batch_bounded = rw (flush_metrics-cfg batch s) small;
          sizes_bounded = g.sizes_bounded;
        })
  notice_stop_at-Inv _ _ s t e v h = absurd (ground arith)

  drain_at-Inv :
      (b : Batcher) (q : List Job) (s t : Scheduler R)
      → s.queue ≡ q
      → Inv s
      → drain_at b q s ≡ some t
      → Inv t
  unfolding drain_at
  drain_at-Inv (draining []) (j ∷ q) s t f v h =
      of_some (λ (u : Scheduler R). Inv u) h
        (record {
          limit_pos = v.limit_pos;
          workers_pos = v.workers_pos;
          queue_bounded = omega (arith, v.queue_bounded, ap length f);
          workers_bounded = v.workers_bounded;
          batch_bounded = v.limit_pos;
          sizes_bounded = v.sizes_bounded;
        })
  drain_at-Inv (draining []) [] s t f v h =
      of_some (λ (u : Scheduler R). Inv u) h
        (record {
          limit_pos = v.limit_pos;
          workers_pos = v.workers_pos;
          queue_bounded = v.queue_bounded;
          workers_bounded = v.workers_bounded;
          batch_bounded = tt;
          sizes_bounded = v.sizes_bounded;
        })
  drain_at-Inv _ _ s t f v h = absurd (ground arith)

  Quiet-Inv : {s t : Scheduler R} → Quiet s t → Inv s → Inv t
  unfolding receive time_out notice_stop drain
  Quiet-Inv {s} {t} (receives h) v = receive_at-Inv s.batcher s.queue s t refl refl v h
  Quiet-Inv {s} {t} (times_out h) v = time_out_at-Inv s.batcher s.timer s t refl v h
  Quiet-Inv {s} {t} (notices_stop h) v = notice_stop_at-Inv s.batcher s.stopping s t refl v h
  Quiet-Inv {s} {t} (drains h) v = drain_at-Inv s.batcher s.queue s t refl v h
  Quiet-Inv {s} {t} (finishes i result h) v = finish-Inv i result s t v h
  Quiet-Inv {s} (stops h) v = subst (λ (u : Scheduler R). Inv u) h (stop-Inv s v)
  Quiet-Inv {s} (ticks d h) v = subst (λ (u : Scheduler R). Inv u) h (tick-Inv d s v)

  -- Every interleaving keeps the invariant: the queue and the workers stay within their capacities, a
  -- batch that waits is shorter than `MaxBatchSize` and under a timer that fires within `MaxWait`, and
  -- every batch that was flushed had between 1 and `MaxBatchSize` jobs.
  pub Reach-Inv :
      {o s : Scheduler R} {accepted started : List Job} → Inv o → Reach o s accepted started → Inv s
  unfolding launch
  Reach-Inv v start = v
  Reach-Inv v (accepts {s} {t} j r h) =
      subst (λ (p : Scheduler R × Bool). Inv p.0) h (submit-Inv j s (Reach-Inv v r))
  Reach-Inv v (rejects {s} {t} j r h) =
      subst (λ (p : Scheduler R × Bool). Inv p.0) h (submit-Inv j s (Reach-Inv v r))
  Reach-Inv v (quietly r q) = Quiet-Inv q (Reach-Inv v r)
  Reach-Inv v (launches {s} {t} j r h) =
      launch_at-Inv s.batcher (has_slot s) s j t refl refl (Reach-Inv v r) h
