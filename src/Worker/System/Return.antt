-- ===== src/Worker/System/Return.antt =====
-- A stop in order of a worker with its client: the tasks run to their ends, and `run` returns.
use sepp_py.Common.{Bool, true, List, [], ◌∷◌, ok, ◌≡◌, ◌⊎◌, inl, inr, refl, ap, pos}
use sepp_py.Types.Jobs.{Job}
use sepp_py.Worker.Config.{WorkerArgs, Config, make_worker}
use sepp_py.Worker.Handlers.{Handlers}
use sepp_py.Worker.Client.{QueueClient}
use sepp_py.Worker.Process.{Handler}
use sepp_py.Worker.Loop
use sepp_py.Worker.Loop.{
  Phase, top, acquiring, reserving, resting, spawning, draining, stopped, crashed, cancelled, Loop,
  held, spawn, task_done, leave, acquire_abandoned, reserve_abandoned, spawn_next, batch_done,
  rest_abandoned, drained,
}
use sepp_py.Worker.Loop.Gauge.{step_metrics}
use sepp_py.Worker.Loop.Progress.{IsOver, free_permit}
use sepp_py.Worker.System.{
  System, Nothing, is_local, task_ended, Step, waited, processed_job, Reach, next,
}
use sepp_py.Worker.System.Refines.{Reach-loop}

module _ {W : Type 0} (qc : QueueClient W) (Outside : W → W → Type 0) (c : Config)
    (hs : Handlers (Handler W)) where
  pub data Steps : System W → System W → Type 0 where
    here : {s : System W} → Steps s s
    first : {s t u : System W} → Step qc Outside c hs s t → Steps t u → Steps s u

  -- Some steps lead from here to the return of `run`, with no task left.
  abbrev pub Returns : System W → Type 0
  Returns s = (t : System W) × Steps s t × (t.loop.phase ≡ stopped) × (t.loop.tasks ≡ [])

module _ {W : Type 0} {qc : QueueClient W} {Outside : W → W → Type 0} {c : Config}
    {hs : Handlers (Handler W)} where
  first_step :
      {s t : System W}
      → Step qc Outside c hs s t
      → Returns qc Outside c hs t
      → Returns qc Outside c hs s
  first_step x (t, run, h, idle) = (t, first x run, h, idle)

  local_step :
      {s : System W} {l : Loop} (x : Loop.Step Nothing c s.loop l)
      → is_local x ≡ true
      → Returns qc Outside c hs (record s { loop = l; metrics = step_metrics x s.metrics })
      → Returns qc Outside c hs s
  local_step x l = first_step (waited x l)

  draining-Returns :
      (s : System W) → s.loop.phase ≡ draining → s.loop.tasks ≡ [] → Returns qc Outside c hs s
  unfolding is_local step_metrics
  draining-Returns s h idle = local_step (drained h idle) refl (_, here, refl, idle)

  top-Returns :
      (s : System W)
      → s.loop.phase ≡ top
      → s.loop.tasks ≡ []
      → s.loop.shutdown ≡ true
      → Returns qc Outside c hs s
  unfolding is_local
  top-Returns s h idle d = local_step (leave h d) refl (draining-Returns _ refl idle)

  module _ {otel_available : Bool} {w : W} where
    -- First the tasks end, one by one.
    after_tasks :
        {P : Type 0} (tasks : List Job) (s : System W)
        → Reach qc Outside c hs otel_available w s
        → s.loop.tasks ≡ tasks
        → s.loop.shutdown ≡ true
        → ((t : System W)
            → Reach qc Outside c hs otel_available w t
            → t.loop.phase ≡ s.loop.phase
            → t.loop.tasks ≡ []
            → t.loop.shutdown ≡ true
            → P ⊎ Returns qc Outside c hs t)
        → P ⊎ Returns qc Outside c hs s
    unfolding task_ended task_done
    after_tasks [] s r e d k = k s r refl e d
    after_tasks (job ∷ jobs) s r e d k =
        let x : Step qc Outside c hs s _ = processed_job job [] jobs (pos 0) [] e in
        elim (after_tasks jobs _ (next r x) refl d k) [
          | inl p ↦ inl p
          | inr run ↦ inr (first_step x run)
        ]

    module _ (a : WorkerArgs) (made : make_worker a ≡ ok c) where
      -- The rest of a batch: each job finds a permit, since the one before it has ended.
      spawning-Returns :
          (jobs : List Job) (s : System W)
          → Reach qc Outside c hs otel_available w s
          → s.loop.phase ≡ spawning jobs
          → s.loop.tasks ≡ []
          → s.loop.shutdown ≡ true
          → Returns qc Outside c hs s
      unfolding spawn task_ended task_done is_local
      spawning-Returns [] s r h idle d = local_step (batch_done h) refl (top-Returns _ refl idle d)
      spawning-Returns (job ∷ jobs) s r h idle d =
          let free = free_permit a made s.loop (Reach-loop qc r) idle (ap held h) in
          let x : Step qc Outside c hs s _ = waited (spawn_next job jobs h free) refl in
          let y = processed_job job [] [] (pos 0) [] (ap (λ l. job ∷ l) idle) in
          first_step x (first_step y (spawning-Returns jobs _ (next (next r x) y) refl refl d))

      from_phase-Returns :
          (p : Phase) (s : System W)
          → Reach qc Outside c hs otel_available w s
          → s.loop.phase ≡ p
          → s.loop.tasks ≡ []
          → s.loop.shutdown ≡ true
          → IsOver p ⊎ Returns qc Outside c hs s
      unfolding is_local
      from_phase-Returns top s r h idle d = inr (top-Returns s h idle d)
      from_phase-Returns acquiring s r h idle d =
          inr (local_step (acquire_abandoned h d) refl (draining-Returns _ refl idle))
      from_phase-Returns (reserving opts) s r h idle d =
          inr (local_step (reserve_abandoned opts h d) refl (draining-Returns _ refl idle))
      from_phase-Returns resting s r h idle d =
          inr (local_step (rest_abandoned h d) refl (draining-Returns _ refl idle))
      from_phase-Returns (spawning jobs) s r h idle d = inr (spawning-Returns jobs s r h idle d)
      from_phase-Returns draining s r h idle d = inr (draining-Returns s h idle)
      from_phase-Returns stopped s r h idle d = inl tt
      from_phase-Returns crashed s r h idle d = inl tt
      from_phase-Returns (cancelled n) s r h idle d = inl tt

      -- For a worker that was built, with any client and any handlers: from every state that it
      -- reaches with the shutdown signal set, `run` is over, or some steps in which each task runs
      -- `_run_job` to its end lead to the return of `run` with no task left.
      shutdown_can_return :
          {s : System W}
          → Reach qc Outside c hs otel_available w s
          → s.loop.shutdown ≡ true
          → IsOver s.loop.phase ⊎ Returns qc Outside c hs s
      shutdown_can_return {s} r d =
          after_tasks s.loop.tasks s r refl d
            λ t r' h idle d'. from_phase-Returns s.loop.phase t r' h idle d'
