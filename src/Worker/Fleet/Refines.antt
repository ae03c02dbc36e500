-- ===== src/Worker/Fleet/Refines.antt =====
-- All tasks at once against the poll loop alone.
use mathlib.Core.List.{map-append}
use sepp_py.Common.{
  true, List, [], ◌∷◌, map, Option, none, some, Result, ok, err, ◌≡◌, refl, sym, ap, ◌∙◌,
}
use sepp_py.Types.Time.{Timedelta}
use sepp_py.Types.Requests.{ReserveOptions}
use sepp_py.Types.Jobs.{Lease, Job}
use sepp_py.Errors.Exceptions.{Raised, sepp}
use sepp_py.Worker.Config.{Config}
use sepp_py.Worker.Handlers.{Handlers}
use sepp_py.Worker.Client.{QueueClient}
use sepp_py.Worker.Process.{Ending, Handler}
use sepp_py.Worker.Loop
use sepp_py.Worker.Loop.{
  Loop, take_batch, spawn, task_done, signal, end_task, reserve_failed, reserve_crashed,
  reserve_empty, reserve_jobs, spawn_next, cancel,
}
use sepp_py.Worker.System.{Nothing, is_local, after_reserve}
use sepp_py.Worker.System.Refines.{Serves, local-Step, after_reserve-Step}
use sepp_py.Worker.Fleet.{
  Run, Fleet, with_first, is_still, elsewhere, waited, reserved, spawned, advanced, ended,
  cancelled_run, Reach, begin, next,
}

abbrev pub job_of : {W : Type 0} → Run W → Job
job_of r = r.job

still-local :
    {c : Config} {s t : Loop} (x : Loop.Step Nothing c s t) → is_still x ≡ true → is_local x ≡ true
unfolding is_still is_local
still-local (spawn_next job jobs h free) e = refl
still-local (cancel h) e = refl
still-local x e = e

still_tasks :
    {c : Config} {s t : Loop} (x : Loop.Step Nothing c s t) → is_still x ≡ true → t.tasks ≡ s.tasks
unfolding is_still is_local
still_tasks (end_task job before behind e) l = cc l
still_tasks (reserve_jobs opts job jobs h served) l = absurd served
still_tasks (spawn_next job jobs h free) l = cc l
still_tasks (cancel h) l = cc l
still_tasks _ l = refl

reserve_tasks :
    {W : Type 0} (opts : ReserveOptions) (elapsed : Timedelta)
    (r : Result Raised (Option (List Job))) (s : Loop) (runs : List (Run W))
    → s.tasks ≡ map job_of runs
    → (after_reserve opts elapsed r s).tasks ≡ map job_of (with_first r runs)
unfolding after_reserve with_first take_batch spawn
reserve_tasks opts elapsed (ok none) s runs h = h
reserve_tasks opts elapsed (ok (some [])) s runs h = h
reserve_tasks opts elapsed (ok (some (job ∷ jobs))) s runs h = ap (λ l. job ∷ l) h
reserve_tasks opts elapsed (err (sepp e)) s runs h = h
reserve_tasks opts elapsed (err _) s runs h = h

module _ {W : Type 0} (qc : QueueClient W) {c : Config} {hs : Handlers (Handler W)}
    {Works : Job → W → W → Type 0} {Acts : Job → W → Lease → W → Lease → Type 0}
    {Ends : Job → Ending → Type 0} {Outside : W → W → Type 0} {w : W} where
  -- In every state that the worker reaches with all of its tasks at once, its loop is in a state of
  -- the poll loop that is served what the client's reserve calls return, and the tasks of the loop
  -- are the tasks that run.
  pub fleet_loop :
      {s : Fleet W}
      → Reach qc c hs Works Acts Ends Outside w s
      → Loop.Reach (Serves qc) c s.loop × (s.loop.tasks ≡ map job_of s.runs)
  unfolding spawn task_done
  fleet_loop begin = (Loop.begin, refl)
  fleet_loop (next r (elsewhere w step)) = fleet_loop r
  fleet_loop (next r (waited x l)) =
      let (reach, same) = fleet_loop r in
      (Loop.next reach (local-Step qc x (still-local x l)), still_tasks x l ∙ same)
  fleet_loop (next {s} r (reserved opts elapsed h)) =
      let (reach, same) = fleet_loop r in
      let o = qc.reserve_jobs opts s.world in
      (
        Loop.next reach (after_reserve-Step qc opts elapsed s.world o s.loop refl h),
        reserve_tasks opts elapsed o.0 s.loop s.runs same,
      )
  fleet_loop (next r (spawned job jobs h free)) =
      let (reach, same) = fleet_loop r in
      (Loop.next reach (spawn_next job jobs h free), ap (λ l. job ∷ l) same)
  fleet_loop (next r (advanced before run behind stage w e a)) =
      let (reach, same) = fleet_loop r in
      (
        reach,
        same
            ∙ ap (map job_of) e
            ∙ map-append job_of before (run ∷ behind)
            ∙ sym (map-append job_of before (record run { stage = stage } ∷ behind)),
      )
  fleet_loop (next r (ended before run behind o e f)) =
      let (reach, same) = fleet_loop r in
      let tasks = same ∙ ap (map job_of) e ∙ map-append job_of before (run ∷ behind) in
      (
        Loop.next reach (end_task run.job (map job_of before) (map job_of behind) tasks),
        sym (map-append job_of before behind),
      )
  fleet_loop (next r (cancelled_run h)) =
      let (reach, same) = fleet_loop r in (Loop.next reach (cancel h), refl)
