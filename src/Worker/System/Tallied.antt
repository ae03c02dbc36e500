-- ===== src/Worker/System/Tallied.antt =====
-- The counters of jobs in the metrics of a worker, step by step.
use sepp_py.Common.{
  ℕ, zero, suc, ℤ, pos, negsuc, Bool, true, false, List, [], ◌∷◌, Option, none, some, Result, ok,
  err, ◌≡◌, inl, inr, arith,
}
use sepp_py.Types.Jobs.{Job}
use sepp_py.Errors.Exceptions.{Raised, sepp}
use sepp_py.Otel.Metrics.{
  WorkerMetrics, record_processed, record_nacked, record_in_flight_delta, record_reserve_ok,
  record_reserve_failed,
}
use sepp_py.Worker.Config.{Config}
use sepp_py.Worker.Handlers.{Handlers}
use sepp_py.Worker.Client.{QueueClient}
use sepp_py.Worker.Process.{
  Handler, processed, nacked, TaskEnd, completed, crashed, task_cancelled, run_job,
}
use sepp_py.Worker.Process.Counted.{run_job-Counted}
use sepp_py.Worker.Loop
use sepp_py.Worker.Loop.{
  Loop, top, resting, reserving, is_early_empty, take_batch, spawn, task_done, signal, end_task,
  enter, leave, acquire, acquire_abandoned, reserve_failed, reserve_abandoned, reserve_crashed,
  reserve_empty, reserve_jobs, spawn_next, batch_done, rested, rest_abandoned, drained, cancel,
}
use sepp_py.Worker.Loop.Drain.{tally}
use sepp_py.Worker.Loop.Gauge.{all_done, step_metrics}
use sepp_py.Worker.System.{Nothing, is_local, count_reserve, count_metrics, count_end}

abbrev pub is_processed : TaskEnd → Bool
is_processed (completed (processed ∷ [])) = true
is_processed _ = false

abbrev pub is_retried : TaskEnd → Bool
is_retried (completed (nacked false ∷ [])) = true
is_retried _ = false

abbrev pub is_dead_lettered : TaskEnd → Bool
is_dead_lettered (completed (nacked true ∷ [])) = true
is_dead_lettered _ = false

-- What the counters of jobs show: how the tasks ended.
pub record IsTallied (m : WorkerMetrics) (ends : List TaskEnd) : Type 0 where
  pub processed : m.counts.processed ≡ tally is_processed ends
  pub nacked_retry : m.counts.nacked_retry ≡ tally is_retried ends
  pub nacked_dead_letter : m.counts.nacked_dead_letter ≡ tally is_dead_lettered ends

abbrev pub IsSingle : TaskEnd → Type 0
IsSingle (completed (x ∷ y ∷ ms)) = ⊥
IsSingle _ = Unit

pub run_job-IsSingle :
    {W : Type 0} (qc : QueueClient W) (c : Config) (hs : Handlers (Handler W)) (job : Job)
    (clock : ℤ) (lates : List ℕ) (w : W) (o : TaskEnd × W)
    → run_job qc c hs job clock lates w ≡ o
    → IsSingle o.0
run_job-IsSingle qc c hs job clock lates w (crashed r, w') h = tt
run_job-IsSingle qc c hs job clock lates w (task_cancelled, w') h = tt
run_job-IsSingle qc c hs job clock lates w (completed ms, w') h =
    elim (run_job-Counted qc c hs job clock lates w ms w' h) [
      | inl e ↦ rw e tt
      | inr (inl (w₁, e, call)) ↦ rw e tt
      | inr (inr (w₁, d, reason, dead, e, call)) ↦ rw e tt
    ]

pub end-IsTallied :
    (e : TaskEnd) (m : WorkerMetrics) (ends : List TaskEnd)
    → IsSingle e
    → m.enabled ≡ true
    → IsTallied m ends
    → IsTallied (record_in_flight_delta (negsuc 0) (count_end e m)) (e ∷ ends)
unfolding count_end count_metrics record_processed record_nacked record_in_flight_delta
end-IsTallied (completed []) m ends h on i = ground (arith, on, i)
end-IsTallied (completed (processed ∷ [])) m ends h on i = ground (arith, on, i)
end-IsTallied (completed (nacked true ∷ [])) m ends h on i = ground (arith, on, i)
end-IsTallied (completed (nacked false ∷ [])) m ends h on i = ground (arith, on, i)
end-IsTallied (completed (x ∷ y ∷ ms)) m ends h on i = absurd h
end-IsTallied (crashed r) m ends h on i = ground (arith, on, i)
end-IsTallied task_cancelled m ends h on i = ground (arith, on, i)

all_done-IsTallied :
    (n : ℕ) (m : WorkerMetrics) (ends : List TaskEnd)
    → IsTallied m ends
    → IsTallied (all_done n m) ends
unfolding record_in_flight_delta
all_done-IsTallied zero m ends i = i
all_done-IsTallied (suc n) m ends i = ground (arith, all_done-IsTallied n m ends i)

delta-IsTallied :
    (d : ℤ) (m : WorkerMetrics) (ends : List TaskEnd)
    → IsTallied m ends
    → IsTallied (record_in_flight_delta d m) ends
unfolding record_in_flight_delta
delta-IsTallied d m ends i = ground (arith, i)

pub reserve-IsTallied :
    (r : Result Raised (Option (List Job))) (m : WorkerMetrics) (ends : List TaskEnd)
    → IsTallied m ends
    → IsTallied (count_reserve r m) ends
unfolding count_reserve record_reserve_ok record_reserve_failed record_in_flight_delta
reserve-IsTallied (ok none) m ends i = ground (arith, i)
reserve-IsTallied (ok (some [])) m ends i = ground (arith, i)
reserve-IsTallied (ok (some (job ∷ jobs))) m ends i = ground (arith, i)
reserve-IsTallied (err (sepp e)) m ends i = ground (arith, i)
reserve-IsTallied (err _) m ends i = i

pub step-IsTallied :
    {c : Config} {s t : Loop} (x : Loop.Step Nothing c s t) (m : WorkerMetrics)
    (ends : List TaskEnd)
    → is_local x ≡ true
    → IsTallied m ends
    → IsTallied (step_metrics x m) ends
unfolding step_metrics is_local
step-IsTallied (end_task job before behind e) m ends l i = cc l
step-IsTallied (reserve_failed opts h) m ends l i = cc l
step-IsTallied (reserve_empty opts elapsed h) m ends l i = cc l
step-IsTallied (reserve_jobs opts job jobs h served) m ends l i = absurd served
step-IsTallied (spawn_next job jobs h free) m ends l i = delta-IsTallied (pos 1) m ends i
step-IsTallied {s} (cancel h) m ends l i = all_done-IsTallied s.in_flight m ends i
step-IsTallied _ m ends l i = i
