-- ===== src/Worker/Loop/Gauge.antt =====
-- The metrics that the poll loop records, and what they show.
use sepp_py.Common.{
  ℕ, zero, suc, ◌+◌, ◌-◌, ◌≤◌, pos, negsuc, ◌+ℤ◌, if◌then◌else◌, Bool, true, false, List, ◌∷◌,
  length, length-append, refl, ap, ◌≡◌, arith,
}
use sepp_py.Types.Requests.{ReserveOptions}
use sepp_py.Types.Jobs.{Job}
use sepp_py.Otel.Metrics.{
  WorkerMetrics, make_metrics, record_in_flight_delta, record_reserve_ok, record_reserve_failed,
}
use sepp_py.Worker.Config.{Config}
use sepp_py.Worker.Loop.{
  Phase, top, resting, reserving, is_early_empty, Loop, spawn, task_done, take_batch, Step, signal,
  end_task, enter, leave, acquire, acquire_abandoned, reserve_failed, reserve_abandoned,
  reserve_crashed, reserve_empty, reserve_jobs, spawn_next, batch_done, rested, rest_abandoned,
  drained, cancel, Reach, begin, next,
}
use sepp_py.Worker.Loop.Permits.{IsAccounted, Reach-IsAccounted}

-- A reserve call that has not ended.
abbrev pub open_reserves : Phase → ℕ
open_reserves (reserving opts) = 1
open_reserves _ = 0

-- What the instruments show in a state: the gauge the jobs in flight, and the counters of reserve
-- calls no more than the calls that have ended.
pub record Shows (m : WorkerMetrics) (s : Loop) : Type 0 where
  pub enabled : m.enabled ≡ true
  pub gauge : m.counts.in_flight ≡ pos s.in_flight
  pub ended :
      m.counts.reserves_some
        + m.counts.reserves_empty
        + m.counts.reserves_failed
        + open_reserves s.phase
      ≤ s.reserves

-- The done callbacks of that many tasks.
abbrev pub all_done : ℕ → WorkerMetrics → WorkerMetrics
all_done zero m = m
all_done (suc n) m = record_in_flight_delta (negsuc 0) (all_done n m)

module _ {Serves : ReserveOptions → List Job → Type 0} {c : Config} where
  -- What a step records: `_spawn` and its `_done` move the gauge, and `run` counts its reserves.
  -- The tasks that a cancellation ends run their done callbacks too.
  unfoldable pub step_metrics : {s t : Loop} → Step Serves c s t → WorkerMetrics → WorkerMetrics
  step_metrics (end_task job before behind e) m = record_in_flight_delta (negsuc 0) m
  step_metrics (reserve_failed opts h) m = record_reserve_failed m
  step_metrics (reserve_empty opts elapsed h) m = record_reserve_ok true m
  step_metrics (reserve_jobs opts job jobs h served) m =
      record_in_flight_delta (pos 1) (record_reserve_ok false m)
  step_metrics (spawn_next job jobs h free) m = record_in_flight_delta (pos 1) m
  step_metrics {s} (cancel h) m = all_done s.in_flight m
  step_metrics _ m = m

  unfoldable pub metrics_after : {s : Loop} → Reach Serves c s → WorkerMetrics
  unfolding step_metrics
  metrics_after begin = make_metrics true
  metrics_after (next r x) = step_metrics x (metrics_after r)

pub up : (n : ℕ) → pos n +ℤ pos 1 ≡ pos (n + 1)
unfolding ◌+ℤ◌
up n = ground arith

down : (n : ℕ) → 1 ≤ n → pos n +ℤ negsuc 0 ≡ pos (n - 1)
unfolding ◌+ℤ◌
down n h = ground arith

all_done_lem :
    (n k : ℕ) (m : WorkerMetrics) → m.enabled ≡ true → m.counts.in_flight ≡ pos (k + n) → record {
      enabled : (all_done n m).enabled ≡ true;
      gauge : (all_done n m).counts.in_flight ≡ pos k;
      some_ : (all_done n m).counts.reserves_some ≡ m.counts.reserves_some;
      empty : (all_done n m).counts.reserves_empty ≡ m.counts.reserves_empty;
      failed : (all_done n m).counts.reserves_failed ≡ m.counts.reserves_failed;
    }
unfolding record_in_flight_delta
all_done_lem zero k m e h = ground (arith, e, h)
all_done_lem (suc n) k m e h =
    let rest = all_done_lem n (k + 1) m e (ground (arith, h)) in ground (arith, rest, down (k + 1))

pub open_after_empty : (early : Bool) → open_reserves (if early then resting else top) ≡ 0
open_after_empty true = refl
open_after_empty false = refl

module _ {Serves : ReserveOptions → List Job → Type 0} {c : Config} where
  pub Step-Shows :
      {s t : Loop} (x : Step Serves c s t) (m : WorkerMetrics)
      → IsAccounted c s
      → Shows m s
      → Shows (step_metrics x m) t
  unfolding step_metrics spawn task_done take_batch record_in_flight_delta record_reserve_ok
      record_reserve_failed
  Step-Shows signal m a i = record { enabled = i.enabled; gauge = i.gauge; ended = i.ended }
  Step-Shows {s} (end_task job before behind e) m a i =
      let some_job : 1 ≤ s.in_flight =
        ground (arith, a.tasks, ap length e, length-append before (job ∷ behind)) in
      ground (arith, i.enabled, i.gauge, i.ended, down s.in_flight some_job)
  Step-Shows (enter h d) m a i = ground (arith, i.enabled, i.gauge, i.ended, ap open_reserves h)
  Step-Shows (reserve_failed opts h) m a i =
      ground (arith, i.enabled, i.gauge, i.ended, ap open_reserves h)
  Step-Shows (reserve_empty opts elapsed h) m a i = ground (
    arith,
    i.enabled,
    i.gauge,
    i.ended,
    ap open_reserves h,
    open_after_empty (is_early_empty elapsed opts),
  )
  Step-Shows {s} (reserve_jobs opts job jobs h served) m a i =
      ground (arith, i.enabled, i.gauge, i.ended, ap open_reserves h, up s.in_flight)
  Step-Shows {s} (spawn_next job jobs h free) m a i =
      ground (arith, i.enabled, i.gauge, i.ended, ap open_reserves h, up s.in_flight)
  Step-Shows {s} (cancel h) m a i =
      let done = all_done_lem s.in_flight 0 m i.enabled (ground (arith, i.gauge)) in
      ground (arith, i.ended, done)
  Step-Shows (leave h d) m a i = ground (arith, i.enabled, i.gauge, i.ended, ap open_reserves h)
  Step-Shows (acquire opts h free e) m a i =
      ground (arith, i.enabled, i.gauge, i.ended, ap open_reserves h)
  Step-Shows (acquire_abandoned h d) m a i =
      ground (arith, i.enabled, i.gauge, i.ended, ap open_reserves h)
  Step-Shows (reserve_abandoned opts h d) m a i =
      ground (arith, i.enabled, i.gauge, i.ended, ap open_reserves h)
  Step-Shows (reserve_crashed opts h) m a i =
      ground (arith, i.enabled, i.gauge, i.ended, ap open_reserves h)
  Step-Shows (batch_done h) m a i = ground (arith, i.enabled, i.gauge, i.ended, ap open_reserves h)
  Step-Shows (rested h) m a i = ground (arith, i.enabled, i.gauge, i.ended, ap open_reserves h)
  Step-Shows (rest_abandoned h d) m a i =
      ground (arith, i.enabled, i.gauge, i.ended, ap open_reserves h)
  Step-Shows (drained h none_left) m a i =
      ground (arith, i.enabled, i.gauge, i.ended, ap open_reserves h)

  -- With OpenTelemetry installed, in every state that the poll loop reaches the gauge
  -- `sepp.jobs.in_flight` shows the jobs in flight, and the reserve calls that the counters show are
  -- no more than those that have ended.
  Reach-Shows : {s : Loop} (r : Reach Serves c s) → Shows (metrics_after r) s
  unfolding metrics_after
  Reach-Shows begin = ground arith
  Reach-Shows (next r x) = Step-Shows x (metrics_after r) (Reach-IsAccounted r) (Reach-Shows r)
