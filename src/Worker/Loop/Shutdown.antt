-- ===== src/Worker/Loop/Shutdown.antt =====
-- The poll loop after the shutdown signal.
use sepp_py.Common.{ℕ, ◌+◌, ◌≤◌, ◌≡◌, Bool, true, false, List, refl, ap, arith, if◌then◌else◌}
use sepp_py.Types.Requests.{ReserveOptions}
use sepp_py.Types.Jobs.{Job}
use sepp_py.Worker.Config.{Config}
use sepp_py.Worker.Loop.{
  Phase, top, resting, acquiring, Loop, spawn, task_done, take_batch, is_early_empty, Step, signal,
  end_task, enter, leave, acquire, acquire_abandoned, reserve_failed, reserve_abandoned,
  reserve_crashed, reserve_empty, reserve_jobs, spawn_next, batch_done, rested, rest_abandoned,
  drained, cancel,
}

-- The reserve calls that a phase can still make once the signal is set.
abbrev pub credit : Phase → ℕ
credit acquiring = 1
credit _ = 0

credit_bound : (p : Phase) → credit p ≤ 1
credit_bound p = ground arith

credit_after_empty : (early : Bool) → credit (if early then resting else top) ≡ 0
credit_after_empty true = refl
credit_after_empty false = refl

module _ (Serves : ReserveOptions → List Job → Type 0) (c : Config) where
  -- Steps one after another.
  pub data Steps (s : Loop) : Loop → Type 0 where
    here : Steps s s
    then_step : {t u : Loop} → Steps s t → Step Serves c t u → Steps s u

module _ {Serves : ReserveOptions → List Job → Type 0} {c : Config} where
  pub Step-shutdown : {s t : Loop} → Step Serves c s t → s.shutdown ≡ true → t.shutdown ≡ true
  unfolding spawn task_done take_batch
  Step-shutdown signal d = refl
  Step-shutdown (end_task job before behind e) d = d
  Step-shutdown (enter h n) d = d
  Step-shutdown (leave h n) d = d
  Step-shutdown (acquire opts h free e) d = d
  Step-shutdown (acquire_abandoned h n) d = d
  Step-shutdown (reserve_failed opts h) d = d
  Step-shutdown (reserve_abandoned opts h n) d = d
  Step-shutdown (reserve_crashed opts h) d = d
  Step-shutdown (reserve_empty opts elapsed h) d = d
  Step-shutdown (reserve_jobs opts job jobs h served) d = d
  Step-shutdown (spawn_next job jobs h free) d = d
  Step-shutdown (batch_done h) d = d
  Step-shutdown (rested h) d = d
  Step-shutdown (rest_abandoned h n) d = d
  Step-shutdown (drained h none_left) d = d
  Step-shutdown (cancel h) d = d

  Step-credit :
      {s t : Loop}
      → Step Serves c s t
      → s.shutdown ≡ true
      → t.reserves + credit t.phase ≤ s.reserves + credit s.phase
  unfolding spawn task_done take_batch
  Step-credit signal d = ground arith
  Step-credit (end_task job before behind e) d = ground arith
  Step-credit (enter h n) d = ground (arith, d, n)
  Step-credit (leave h n) d = ground (arith, ap credit h)
  Step-credit (acquire opts h free e) d = ground (arith, ap credit h)
  Step-credit (acquire_abandoned h n) d = ground (arith, ap credit h)
  Step-credit (reserve_failed opts h) d = ground (arith, ap credit h)
  Step-credit (reserve_abandoned opts h n) d = ground (arith, ap credit h)
  Step-credit (reserve_crashed opts h) d = ground (arith, ap credit h)
  Step-credit (reserve_empty opts elapsed h) d =
      ground (arith, ap credit h, credit_after_empty (is_early_empty elapsed opts))
  Step-credit (reserve_jobs opts job jobs h served) d = ground (arith, ap credit h)
  Step-credit (spawn_next job jobs h free) d = ground (arith, ap credit h)
  Step-credit (batch_done h) d = ground (arith, ap credit h)
  Step-credit (rested h) d = ground (arith, ap credit h)
  Step-credit (rest_abandoned h n) d = ground (arith, ap credit h)
  Step-credit (drained h none_left) d = ground (arith, ap credit h)
  Step-credit (cancel h) d = ground arith

  Steps-credit :
      {s t : Loop}
      → Steps Serves c s t
      → s.shutdown ≡ true
      → (t.shutdown ≡ true) × (t.reserves + credit t.phase ≤ s.reserves + credit s.phase)
  Steps-credit here d = (d, ground arith)
  Steps-credit (then_step run step) d =
      let (d', bound) = Steps-credit run d in
      (Step-shutdown step d', ground (arith, bound, Step-credit step d'))

  -- However the poll loop goes on once the shutdown signal is set, it calls `reserve` at most
  -- once more.
  pub one_more_reserve :
      {s t : Loop} → Steps Serves c s t → s.shutdown ≡ true → t.reserves ≤ s.reserves + 1
  one_more_reserve {s} {t} run d = ground (arith, Steps-credit run d, credit_bound s.phase)
