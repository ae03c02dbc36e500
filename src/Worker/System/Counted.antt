-- ===== src/Worker/System/Counted.antt =====
-- The instruments of a worker against the tasks that have ended.
use sepp_py.Common.{
  suc, true, false, List, [], ◌∷◌, Option, none, some, Result, ok, err, ◌≡◌, refl, sym, ◌∙◌, ap,
  length, arith,
}
use sepp_py.Types.Time.{Timedelta}
use sepp_py.Types.Requests.{ReserveOptions}
use sepp_py.Types.Jobs.{Job}
use sepp_py.Errors.Exceptions.{Raised, sepp}
use sepp_py.Otel.Metrics.{
  WorkerMetrics, record_processed, record_nacked, record_in_flight_delta, record_reserve_ok,
  record_reserve_failed,
}
use sepp_py.Worker.Config.{Config}
use sepp_py.Worker.Handlers.{Handlers}
use sepp_py.Worker.Client.{QueueClient}
use sepp_py.Worker.Process.{
  Handler, processed, nacked, TaskEnd, completed, crashed, task_cancelled, run_job,
}
use sepp_py.Worker.Loop
use sepp_py.Worker.Loop.{
  Loop, top, resting, reserving, is_early_empty, take_batch, spawn, task_done, signal, end_task,
  enter, leave, acquire, acquire_abandoned, reserve_failed, reserve_abandoned, reserve_crashed,
  reserve_empty, reserve_jobs, spawn_next, batch_done, rested, rest_abandoned, drained, cancel,
}
use sepp_py.Worker.Loop.Permits.{Reach-IsAccounted}
use sepp_py.Worker.Loop.Gauge.{Shows, open_reserves, open_after_empty, step_metrics, Step-Shows, up}
use sepp_py.Worker.System.{
  System, Nothing, is_local, after_reserve, count_reserve, count_metrics, count_end, reserve_ended,
  task_ended, elsewhere, waited, reserved, processed_job, Reach, begin, next,
}
use sepp_py.Worker.System.Tallied.{
  IsTallied, IsSingle, run_job-IsSingle, end-IsTallied, reserve-IsTallied, step-IsTallied,
}
use sepp_py.Worker.System.Refines.{Reach-loop}

end-Shows :
    (e : TaskEnd) (m : WorkerMetrics) (s : Loop) → IsSingle e → Shows m s → Shows (count_end e m) s
unfolding count_end count_metrics record_processed record_nacked
end-Shows (completed []) m s h i = ground (arith, i.enabled, i.gauge, i.ended)
end-Shows (completed (processed ∷ [])) m s h i = ground (arith, i.enabled, i.gauge, i.ended)
end-Shows (completed (nacked true ∷ [])) m s h i = ground (arith, i.enabled, i.gauge, i.ended)
end-Shows (completed (nacked false ∷ [])) m s h i = ground (arith, i.enabled, i.gauge, i.ended)
end-Shows (completed (x ∷ y ∷ ms)) m s h i = absurd h
end-Shows (crashed r) m s h i = ground (arith, i.enabled, i.gauge, i.ended)
end-Shows task_cancelled m s h i = ground (arith, i.enabled, i.gauge, i.ended)

reserve-Shows :
    (opts : ReserveOptions) (elapsed : Timedelta) (r : Result Raised (Option (List Job))) (s : Loop)
    (m : WorkerMetrics)
    → s.phase ≡ reserving opts
    → Shows m s
    → Shows (count_reserve r m) (after_reserve opts elapsed r s)
unfolding count_reserve after_reserve take_batch spawn record_reserve_ok record_reserve_failed
    record_in_flight_delta
reserve-Shows opts elapsed (ok none) s m h i = ground (
  arith,
  i.enabled,
  i.gauge,
  i.ended,
  ap open_reserves h,
  open_after_empty (is_early_empty elapsed opts),
)
reserve-Shows opts elapsed (ok (some [])) s m h i =
    ground (arith, i.enabled, i.gauge, i.ended, ap open_reserves h)
reserve-Shows opts elapsed (ok (some (job ∷ jobs))) s m h i =
    ground (arith, i.enabled, i.gauge, i.ended, ap open_reserves h, up s.in_flight)
reserve-Shows opts elapsed (err (sepp e)) s m h i =
    ground (arith, i.enabled, i.gauge, i.ended, ap open_reserves h)
reserve-Shows opts elapsed (err _) s m h i =
    ground (arith, i.enabled, i.gauge, i.ended, ap open_reserves h)

-- Only the end of a task adds to the jobs that are finished.
local_finished :
    {c : Config} {s t : Loop} (x : Loop.Step Nothing c s t)
    → is_local x ≡ true
    → t.finished ≡ s.finished
unfolding is_local spawn
local_finished (end_task job before behind e) l = cc l
local_finished (reserve_jobs opts job jobs h served) l = absurd served
local_finished _ l = refl

reserve_finished :
    (opts : ReserveOptions) (elapsed : Timedelta) (r : Result Raised (Option (List Job))) (s : Loop)
    → (after_reserve opts elapsed r s).finished ≡ s.finished
unfolding after_reserve take_batch spawn
reserve_finished opts elapsed (ok none) s = refl
reserve_finished opts elapsed (ok (some [])) s = refl
reserve_finished opts elapsed (ok (some (job ∷ jobs))) s = refl
reserve_finished opts elapsed (err (sepp e)) s = refl
reserve_finished opts elapsed (err _) s = refl

-- The gauge and the counters of reserve calls against the loop, and those of jobs against the ends
-- of its tasks, of which there is one for each job that it finished.
pub record IsCounted {W : Type 0} (s : System W) : Type 0 where
  pub shows : Shows s.metrics s.loop
  pub tallied : IsTallied s.metrics s.ends
  pub each : length s.ends ≡ length s.loop.finished

module _ {W : Type 0} {qc : QueueClient W} {Outside : W → W → Type 0} {c : Config}
    {hs : Handlers (Handler W)} where
  -- With OpenTelemetry installed, in every state that the worker reaches with its client: the gauge
  -- shows the jobs in flight, the counters of reserve calls no more than those that have ended, and
  -- the three counters of jobs exactly how many tasks ended with an ack that was counted, and with
  -- a nack that led to a retry or to the dead-letter queue.
  pub Reach-IsCounted : {w : W} {s : System W} → Reach qc Outside c hs true w s → IsCounted s
  unfolding reserve_ended task_ended record_in_flight_delta step_metrics task_done
  Reach-IsCounted begin = ground arith
  Reach-IsCounted (next r (elsewhere w step)) =
      let i = Reach-IsCounted r in record { shows = i.shows; tallied = i.tallied; each = i.each }
  Reach-IsCounted (next {s} r (waited x l)) =
      let i = Reach-IsCounted r in
      record {
        shows = Step-Shows x s.metrics (Reach-IsAccounted (Reach-loop qc r)) i.shows;
        tallied = step-IsTallied x s.metrics s.ends l i.tallied;
        each = i.each ∙ ap length (sym (local_finished x l));
      }
  Reach-IsCounted (next {s} r (reserved opts elapsed h)) =
      let i = Reach-IsCounted r in
      let o = qc.reserve_jobs opts s.world in
      record {
        shows = reserve-Shows opts elapsed o.0 s.loop s.metrics h i.shows;
        tallied = reserve-IsTallied o.0 s.metrics s.ends i.tallied;
        each = i.each ∙ ap length (sym (reserve_finished opts elapsed o.0 s.loop));
      }
  Reach-IsCounted (next {s} r (processed_job job before behind clock lates e)) =
      let i = Reach-IsCounted r in
      let o = run_job qc c hs job clock lates s.world in
      let single = run_job-IsSingle qc c hs job clock lates s.world o refl in
      record {
        shows =
            Step-Shows {Serves = Nothing} (end_task job before behind e) (count_end o.0 s.metrics)
              (Reach-IsAccounted (Reach-loop qc r)) (end-Shows o.0 s.metrics s.loop single i.shows);
        tallied = end-IsTallied o.0 s.metrics s.ends single i.shows.enabled i.tallied;
        each = ap suc i.each;
      }
