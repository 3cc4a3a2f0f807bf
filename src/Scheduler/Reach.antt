-- ===== src/Scheduler/Reach.antt =====
-- The histories of the scheduler of internal/scheduler/scheduler.go: every interleaving of the
-- submitters, the batcher goroutine, the workers, `Stop` and the clock.
use velocity_gateway.Common.{ℕ, ◌≡◌, true, false, List, [], ◌∷◌, ◌++◌, some}
use velocity_gateway.Scheduler.State.{Job, Scheduler, submit, stop}
use velocity_gateway.Scheduler.Batcher.{receive, time_out, notice_stop, drain, launch, finish, tick}

-- The steps that neither accept a job nor start one.
pub data Quiet {R : Type 0} (s : Scheduler R) : Scheduler R → Type 0 where
  receives : {t : Scheduler R} → receive s ≡ some t → Quiet s t
  times_out : {t : Scheduler R} → time_out s ≡ some t → Quiet s t
  notices_stop : {t : Scheduler R} → notice_stop s ≡ some t → Quiet s t
  drains : {t : Scheduler R} → drain s ≡ some t → Quiet s t
  finishes : (i : ℕ) (result : R) {t : Scheduler R} → finish i result s ≡ some t → Quiet s t
  stops : {t : Scheduler R} → stop s ≡ t → Quiet s t
  ticks : (d : ℕ) {t : Scheduler R} → tick d s ≡ t → Quiet s t

-- What can be reached from a state `o`, with the jobs that `Submit` has accepted since, and those
-- that a worker has been started for since, both in order.
pub data Reach {R : Type 0} (o : Scheduler R) : Scheduler R → List Job → List Job → Type 0 where
  start : Reach o o [] []
  accepts :
      {s t : Scheduler R} {accepted started : List Job} (j : Job)
      → Reach o s accepted started
      → submit j s ≡ (t, true)
      → Reach o t (accepted ++ (j ∷ [])) started
  rejects :
      {s t : Scheduler R} {accepted started : List Job} (j : Job)
      → Reach o s accepted started
      → submit j s ≡ (t, false)
      → Reach o t accepted started
  quietly :
      {s t : Scheduler R} {accepted started : List Job}
      → Reach o s accepted started
      → Quiet s t
      → Reach o t accepted started
  launches :
      {s t : Scheduler R} {accepted started : List Job} (j : Job)
      → Reach o s accepted started
      → launch s ≡ some (j, t)
      → Reach o t accepted (started ++ (j ∷ []))
