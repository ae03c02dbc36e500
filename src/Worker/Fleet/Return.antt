-- ===== src/Worker/Fleet/Return.antt =====
-- A stop in order of a worker with all of its tasks at once.
use mathlib.Core.Path.{subst}
use sepp_py.Common.{sym, true, List, [], ◌∷◌, map, ok, ◌≡◌, ◌⊎◌, inl, inr, refl, ap, ◌∙◌, All}
use sepp_py.Types.Jobs.{Lease, Job}
use sepp_py.Worker.Config.{WorkerArgs, Config, make_worker}
use sepp_py.Worker.Handlers.{Handlers}
use sepp_py.Worker.Client.{QueueClient}
use sepp_py.Worker.Process.{Ending, Handler, TaskEnd}
use sepp_py.Worker.Loop
use sepp_py.Worker.Loop.{
  Phase, top, acquiring, reserving, resting, spawning, draining, stopped, crashed, cancelled, Loop,
  held, spawn, task_done, leave, acquire_abandoned, reserve_abandoned, batch_done, rest_abandoned,
  drained,
}
use sepp_py.Worker.Loop.Progress.{IsOver, free_permit}
use sepp_py.Worker.System.{Nothing, is_local}
use sepp_py.Worker.Fleet.{Run, new_run, Fleet, is_still, Step, waited, spawned, Reach, next}
use sepp_py.Worker.Fleet.Refines.{job_of, fleet_loop}
use sepp_py.Worker.Fleet.Ended.{Steps, here, first, Steps-trans, head_ended, IsBegun, can_end}
use sepp_py.Worker.Fleet.Begun.{Reach-IsBegun}

module _ {W : Type 0} (qc : QueueClient W) {c : Config} {hs : Handlers (Handler W)}
    {Works : Job → W → W → Type 0} {Acts : Job → W → Lease → W → Lease → Type 0}
    {Ends : Job → Ending → Type 0} {Outside : W → W → Type 0} where
  Reach-Steps :
      {w : W} {s t : Fleet W}
      → Reach qc c hs Works Acts Ends Outside w s
      → Steps qc c hs Works Acts Ends Outside s t
      → Reach qc c hs Works Acts Ends Outside w t
  Reach-Steps r here = r
  Reach-Steps r (first x run) = Reach-Steps (next r x) run

module _ {W : Type 0} (qc : QueueClient W) (c : Config) (hs : Handlers (Handler W))
    (Works : Job → W → W → Type 0) (Acts : Job → W → Lease → W → Lease → Type 0)
    (Ends : Job → Ending → Type 0) (Outside : W → W → Type 0) where
  -- Some steps lead from here to the return of `run`, with no task left.
  abbrev pub Returns : Fleet W → Type 0
  Returns s =
      (t : Fleet W) × Steps qc c hs Works Acts Ends Outside s t
      × (t.loop.phase ≡ stopped)
      × (t.runs ≡ [])

module _ {W : Type 0} {qc : QueueClient W} {c : Config} {hs : Handlers (Handler W)}
    {Works : Job → W → W → Type 0} {Acts : Job → W → Lease → W → Lease → Type 0}
    {Ends : Job → Ending → Type 0} {Outside : W → W → Type 0} where
  path-Returns :
      {s t : Fleet W}
      → Steps qc c hs Works Acts Ends Outside s t
      → Returns qc c hs Works Acts Ends Outside t
      → Returns qc c hs Works Acts Ends Outside s
  path-Returns run (u, more, h, idle) =
      (u, Steps-trans qc c hs Works Acts Ends Outside run more, h, idle)

  still_step :
      {s : Fleet W} {l : Loop} (x : Loop.Step Nothing c s.loop l)
      → is_still x ≡ true
      → Returns qc c hs Works Acts Ends Outside (record s { loop = l })
      → Returns qc c hs Works Acts Ends Outside s
  still_step x l = path-Returns (first (waited x l) here)

  draining-Returns :
      (s : Fleet W)
      → s.loop.phase ≡ draining
      → s.loop.tasks ≡ []
      → s.runs ≡ []
      → Returns qc c hs Works Acts Ends Outside s
  unfolding is_still is_local
  draining-Returns s h idle none_run = still_step (drained h idle) refl (_, here, refl, none_run)

  top-Returns :
      (s : Fleet W)
      → s.loop.phase ≡ top
      → s.loop.tasks ≡ []
      → s.runs ≡ []
      → s.loop.shutdown ≡ true
      → Returns qc c hs Works Acts Ends Outside s
  unfolding is_still is_local
  top-Returns s h idle none_run d =
      still_step (leave h d) refl (draining-Returns _ refl idle none_run)

module _ {W : Type 0} {qc : QueueClient W} {c : Config} {hs : Handlers (Handler W)}
    {Works : Job → W → W → Type 0} {Acts : Job → W → Lease → W → Lease → Type 0}
    {Ends : Job → Ending → Type 0} {Outside : W → W → Type 0} {w : W}
    (may_end : (job : Job) → (e : Ending) × Ends job e) where
  idle_tasks :
      {s : Fleet W} → Reach qc c hs Works Acts Ends Outside w s → s.runs ≡ [] → s.loop.tasks ≡ []
  idle_tasks r e = (fleet_loop qc r).1 ∙ ap (map job_of) e

  -- The first task ends.
  end_first :
      (s : Fleet W) (run : Run W) (behind : List (Run W))
      → Reach qc c hs Works Acts Ends Outside w s
      → s.runs ≡ run ∷ behind
      → (o : TaskEnd × W) × Steps qc c hs Works Acts Ends Outside s
          (head_ended qc c hs Works Acts Ends Outside s run.job behind o)
  end_first s run behind r e =
      let begun : All (λ x. IsBegun c Ends x.job x.stage) (run ∷ behind) =
        rw e at (Reach-IsBegun r) in
      let (o, steps) =
        can_end qc c hs Works Acts Ends Outside may_end s run.job behind run.stage s.world
          begun.0 in
      (
        o,
        subst
            (λ rs.
              Steps qc c hs Works Acts Ends Outside (record s { runs = rs })
                (head_ended qc c hs Works Acts Ends Outside s run.job behind o))
            (sym e) steps,
      )

  -- First the tasks end, one by one.
  after_tasks :
      {P : Type 0} (runs : List (Run W)) (s : Fleet W)
      → Reach qc c hs Works Acts Ends Outside w s
      → s.runs ≡ runs
      → s.loop.shutdown ≡ true
      → ((t : Fleet W)
          → Reach qc c hs Works Acts Ends Outside w t
          → t.loop.phase ≡ s.loop.phase
          → t.runs ≡ []
          → t.loop.shutdown ≡ true
          → P ⊎ Returns qc c hs Works Acts Ends Outside t)
      → P ⊎ Returns qc c hs Works Acts Ends Outside s
  unfolding task_done
  after_tasks [] s r e d k = k s r refl e d
  after_tasks (run ∷ runs) s r e d k =
      let (o, steps) = end_first s run runs r e in
      elim (after_tasks runs _ (Reach-Steps qc r steps) refl d k) [
        | inl p ↦ inl p
        | inr more ↦ inr (path-Returns steps more)
      ]

  module _ (a : WorkerArgs) (made : make_worker a ≡ ok c) where
    -- The rest of a batch: each job finds a permit, since the one before it has ended.
    spawning-Returns :
        (jobs : List Job) (s : Fleet W)
        → Reach qc c hs Works Acts Ends Outside w s
        → s.loop.phase ≡ spawning jobs
        → s.runs ≡ []
        → s.loop.shutdown ≡ true
        → Returns qc c hs Works Acts Ends Outside s
    unfolding is_still is_local spawn task_done
    spawning-Returns [] s r h none_run d =
        still_step (batch_done h) refl (top-Returns _ refl (idle_tasks r none_run) none_run d)
    spawning-Returns (job ∷ jobs) s r h none_run d =
        let (reach, same) = fleet_loop qc r in
        let free = free_permit a made s.loop reach (idle_tasks r none_run) (ap held h) in
        let x : Step qc c hs Works Acts Ends Outside s _ = spawned job jobs h free in
        let r' = next r x in
        let (o, steps) = end_first _ (new_run job) [] r' (ap (λ l. new_run job ∷ l) none_run) in
        path-Returns (first x steps) (spawning-Returns jobs _ (Reach-Steps qc r' steps) refl refl d)

    from_phase-Returns :
        (p : Phase) (s : Fleet W)
        → Reach qc c hs Works Acts Ends Outside w s
        → s.loop.phase ≡ p
        → s.runs ≡ []
        → s.loop.shutdown ≡ true
        → IsOver p ⊎ Returns qc c hs Works Acts Ends Outside s
    unfolding is_still is_local
    from_phase-Returns top s r h e d = inr (top-Returns s h (idle_tasks r e) e d)
    from_phase-Returns acquiring s r h e d =
        inr (still_step (acquire_abandoned h d) refl (draining-Returns _ refl (idle_tasks r e) e))
    from_phase-Returns (reserving opts) s r h e d =
        inr (
          still_step (reserve_abandoned opts h d) refl (draining-Returns _ refl (idle_tasks r e) e))
    from_phase-Returns resting s r h e d =
        inr (still_step (rest_abandoned h d) refl (draining-Returns _ refl (idle_tasks r e) e))
    from_phase-Returns (spawning jobs) s r h e d = inr (spawning-Returns jobs s r h e d)
    from_phase-Returns draining s r h e d = inr (draining-Returns s h (idle_tasks r e) e)
    from_phase-Returns stopped s r h e d = inl tt
    from_phase-Returns crashed s r h e d = inl tt
    from_phase-Returns (cancelled n) s r h e d = inl tt

    -- For a worker that was built, with any client, and handlers that can always end in some way:
    -- from every state that it reaches with all of its tasks at once and the shutdown signal set,
    -- `run` is over, or some steps lead to its return with no task left.
    pub fleet_can_return :
        {s : Fleet W}
        → Reach qc c hs Works Acts Ends Outside w s
        → s.loop.shutdown ≡ true
        → IsOver s.loop.phase ⊎ Returns qc c hs Works Acts Ends Outside s
    fleet_can_return {s} r d =
        after_tasks s.runs s r refl d λ t r' h e d'. from_phase-Returns s.loop.phase t r' h e d'
