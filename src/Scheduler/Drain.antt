-- ===== src/Scheduler/Drain.antt =====
-- `Stop` of internal/scheduler/scheduler.go can always complete, with every pending job started.
use mathlib.Core.List.{append-nil}
use velocity_gateway.Common.{
  ◌+◌, ◌≡◌, refl, sym, ap, ◌∙◌, true, false, List, [], ◌∷◌, ◌++◌, some, length, arith, subst,
  Bool-cases, inl, inr, ◌≢◌, lt→ltb,
}
use velocity_gateway.Scheduler.State.{
  Job, Scheduler, Batcher, waiting, dispatching, draining, exited,
}
use velocity_gateway.Scheduler.Batcher.{
  take_at, notice_stop, drain, launch, finish, flush_metrics, notice_stop_at, drain_at, launch_at,
  has_slot,
}
use velocity_gateway.Scheduler.Reach.{
  notices_stop, drains, finishes, Reach, start, quietly, launches,
}
use velocity_gateway.Scheduler.Fifo.{pending, Reach-fifo}
use velocity_gateway.Scheduler.Invariant.{Inv, InBounds}
use velocity_gateway.Scheduler.Bounds.{Reach-Inv}

-- A state that a history without new jobs reaches, with a stop on its way.
record Onward {R : Type 0} (o : Scheduler R) (b : Batcher) (q : List Job) : Type 0 where
  state : Scheduler R
  started : List Job
  reached : Reach o state [] started
  batcher : state.batcher ≡ b
  queue : state.queue ≡ q
  stopping : state.stopping ≡ true

module _ {R : Type 0} (result : R) (o : Scheduler R) (v : Inv o) where
  finish_first :
      (s : Scheduler R) (j : Job) (js : List Job)
      → s.running ≡ j ∷ js
      → finish 0 result s ≡ some (record s { running = js; done = (j, result) ∷ s.done })
  unfolding finish take_at
  finish_first s j js e = ground arith

  slot_by_running :
      {b : Batcher} {q : List Job} (w : Onward o b q) (js : List Job)
      → w.state.running ≡ js
      → has_slot w.state ≡ false
      → (w' : Onward o b q) × (has_slot w'.state ≡ true)
  slot_by_running w [] e full =
      let u = Reach-Inv v w.reached in absurd (ground (arith, u.workers_pos, ap length e))
  slot_by_running w (j ∷ js) e full =
      let u = Reach-Inv v w.reached in
      let s = w.state in
      let t : Scheduler R = record s { running = js; done = (j, result) ∷ s.done } in
      (
        record {
          state = t;
          started = w.started;
          reached = quietly w.reached (finishes 0 result (finish_first s j js e));
          batcher = w.batcher;
          queue = w.queue;
          stopping = w.stopping;
        },
        lt→ltb _ _ (omega (arith, u.workers_bounded, ap length e)),
      )

  -- A worker that is done frees a slot.
  free_slot :
      {b : Batcher} {q : List Job} (w : Onward o b q)
      → (w' : Onward o b q) × (has_slot w'.state ≡ true)
  free_slot w = elim (Bool-cases (has_slot w.state)) [
    | inl free ↦ (w, free)
    | inr full ↦ slot_by_running w w.state.running refl full
  ]

  launch_now :
      {b c : Batcher} {q : List Job} (j : Job) (w : Onward o b q)
      → has_slot w.state ≡ true
      → launch_at b true w.state
        ≡ some (j, record (w.state) { running = w.state.running ++ (j ∷ []); batcher = c })
      → Onward o c q
  unfolding launch
  launch_now {b} {c} {q} j w free h =
      let s = w.state in
      record {
        state = record s { running = s.running ++ (j ∷ []); batcher = c };
        started = w.started ++ (j ∷ []);
        reached =
            launches j w.reached
              (ap (λ x. launch_at x (has_slot s) s) w.batcher ∙ ap (λ x. launch_at b x s) free ∙ h);
        batcher = refl;
        queue = w.queue;
        stopping = w.stopping;
      }

  launch_all : (js q : List Job) → Onward o (draining js) q → Onward o (draining []) q
  unfolding launch_at
  launch_all [] q w = w
  launch_all (j ∷ js) q w =
      let (w', free) = free_slot w in launch_all js q (launch_now {c = draining js} j w' free refl)

  dispatch_all :
      (j : Job) (js q : List Job) → Onward o (dispatching (j ∷ js)) q → Onward o (waiting []) q
  unfolding launch_at
  dispatch_all j [] q w = let (w', free) = free_slot w in launch_now {c = waiting []} j w' free refl
  dispatch_all j (k ∷ js) q w =
      let (w', free) = free_slot w in
      dispatch_all k js q (launch_now {c = dispatching (k ∷ js)} j w' free refl)

  drain_step :
      {q : List Job} (w : Onward o (draining []) q) (t : Scheduler R) (c : Batcher) (q' : List Job)
      → drain_at (draining []) q w.state ≡ some t
      → t.batcher ≡ c
      → t.queue ≡ q'
      → t.stopping ≡ true
      → Onward o c q'
  unfolding drain
  drain_step {q} w t c q' h b e p = record {
    state = t;
    started = w.started;
    reached = quietly w.reached (
        drains (
          ap (λ x. drain_at x w.state.queue w.state) w.batcher
          ∙ ap (λ x. drain_at (draining []) x w.state) w.queue
          ∙ h));
    batcher = b;
    queue = e;
    stopping = p;
  }

  drain_all : (q : List Job) → Onward o (draining []) q → Onward o exited []
  unfolding drain_at
  drain_all [] w =
      drain_step w (record (w.state) { batcher = exited }) exited [] refl refl w.queue w.stopping
  drain_all (j ∷ q) w =
      let w' : Onward o (draining (j ∷ [])) q =
        drain_step w (record (w.state) { queue = q; batcher = draining (j ∷ []) })
          (draining (j ∷ [])) q refl refl refl w.stopping in
      drain_all q (launch_all (j ∷ []) q w')

  after_notice : (batch q : List Job) → Onward o (waiting batch) q → Onward o (draining batch) q
  unfolding notice_stop notice_stop_at flush_metrics
  after_notice [] q w =
      let s = w.state in
      record {
        state = record s { batcher = draining [] };
        started = w.started;
        reached = quietly w.reached (
            notices_stop (
              ap (λ x. notice_stop_at x s.stopping s) w.batcher
              ∙ ap (λ x. notice_stop_at (waiting []) x s) w.stopping));
        batcher = refl;
        queue = w.queue;
        stopping = w.stopping;
      }
  after_notice (j ∷ js) q w =
      let s = w.state in
      record {
        state = record (flush_metrics (j ∷ js) s) { batcher = draining (j ∷ js) };
        started = w.started;
        reached = quietly w.reached (
            notices_stop (
              ap (λ x. notice_stop_at x s.stopping s) w.batcher
              ∙ ap (λ x. notice_stop_at (waiting (j ∷ js)) x s) w.stopping));
        batcher = refl;
        queue = w.queue;
        stopping = w.stopping;
      }

  to_exit : (b : Batcher) (q : List Job) → Onward o b q → (b ≢ exited) → Onward o exited []
  to_exit (waiting batch) q w h = drain_all q (launch_all batch q (after_notice batch q w))
  to_exit (dispatching []) q w h = absurd (
      subst
        (λ b.
          InBounds w.state.cfg.max_batch_size (w.state.now + w.state.cfg.max_wait) b w.state.timer)
        w.batcher (Reach-Inv v w.reached).batch_bounded)
  to_exit (dispatching (j ∷ js)) q w h = drain_all q (after_notice [] q (dispatch_all j js q w))
  to_exit (draining js) q w h = drain_all q (launch_all js q w)
  to_exit exited q w h = absurd (h refl)

-- `Stop` can always complete: from any state with the invariant in which it was called and the batcher
-- is not gone, there is a history without new jobs after which the batcher is gone, the queue is
-- empty, and the jobs that were pending have all been started, in order.
pub stop_completes :
    {R : Type 0} (result : R) (s : Scheduler R)
    → Inv s
    → s.stopping ≡ true
    → s.batcher ≢ exited
    → (t : Scheduler R) × Reach s t [] (pending s) × (t.batcher ≡ exited) × (t.queue ≡ [])
stop_completes {R} result s v stopping alive =
    let begin : Onward s s.batcher s.queue = record {
      state = s;
      started = [];
      reached = start;
      batcher = refl;
      queue = refl;
      stopping = stopping;
    } in
    let w = to_exit result s v s.batcher s.queue begin alive in
    let order = Reach-fifo w.reached in
    let all_started : w.started ≡ pending s =
      sym (append-nil w.started) ∙ (rw (w.batcher, w.queue) at order) ∙ append-nil (pending s) in
    (w.state, subst (Reach s w.state []) all_started w.reached, w.batcher, w.queue)
