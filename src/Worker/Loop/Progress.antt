-- ===== src/Worker/Loop/Progress.antt =====
-- What the poll loop waits for.
use sepp_py.Common.{
  ◌<◌, Bool-cases, List, [], ◌∷◌, length, ok, ◌≡◌, ◌≢◌, ◌⊎◌, inl, inr, refl, ap, ◌∙◌, arith,
}
use sepp_py.Types.Requests.{ReserveOptions}
use sepp_py.Types.Jobs.{Job}
use sepp_py.Worker.Config.{WorkerArgs, Config, make_worker}
use sepp_py.Worker.Config.Capacity.{make_worker-IsReady, reserve_opts_with_capacity_bounds}
use sepp_py.Worker.Loop.{
  Phase, top, acquiring, reserving, resting, spawning, draining, stopped, crashed, cancelled, Loop,
  held, spawn, Step, enter, leave, acquire, reserve_failed, spawn_next, batch_done, rested, drained,
  Reach,
}
use sepp_py.Worker.Loop.Permits.{Reach-IsAccounted}
use sepp_py.Worker.Loop.Drain.{waiting}

-- `run` has returned, raised, or was cancelled.
abbrev pub IsOver : Phase → Type 0
IsOver stopped = Unit
IsOver crashed = Unit
IsOver (cancelled n) = Unit
IsOver _ = ⊥

module _ (Serves : ReserveOptions → List Job → Type 0) (c : Config) where
  -- A step of `run` itself, to another place.
  abbrev pub Moves : Loop → Type 0
  Moves s = (t : Loop) × Step Serves c s t × (t.phase ≢ s.phase)

module _ {Serves : ReserveOptions → List Job → Type 0} (a : WorkerArgs) {c : Config}
    (made : make_worker a ≡ ok c) where
  pub free_permit : (s : Loop) → Reach Serves c s → s.tasks ≡ [] → held s.phase ≡ 0 → 0 < s.permits
  free_permit s r idle none_held =
      let counted = Reach-IsAccounted r in
      let ready = make_worker-IsReady a c made in
      ground (arith, counted.permits, counted.tasks, ready.room, ap length idle, none_held)

  move_from :
      {s : Loop} (p : Phase)
      → Reach Serves c s
      → s.tasks ≡ []
      → s.phase ≡ p
      → IsOver p ⊎ Moves Serves c s
  unfolding spawn
  move_from {s} top r idle h = elim (Bool-cases s.shutdown) [
    | inl set ↦ inr (record s { phase = draining }, leave h set, λ e. ground (arith, e, h))
    | inr clear ↦ inr (record s { phase = acquiring }, enter h clear, λ e. ground (arith, e, h))
  ]
  move_from {s} acquiring r idle h =
      let (k, options, low, high, within) =
        reserve_opts_with_capacity_bounds a c s.in_flight made in
      inr (_, acquire _ h (free_permit s r idle (ap held h)) options, λ e. ground (arith, e, h))
  move_from {s} (reserving opts) r idle h =
      inr (_, reserve_failed opts h, λ e. ground (arith, e, h))
  move_from {s} resting r idle h = inr (_, rested h, λ e. ground (arith, e, h))
  move_from {s} (spawning []) r idle h = inr (_, batch_done h, λ e. ground (arith, e, h))
  move_from {s} (spawning (job ∷ jobs)) r idle h = inr (
    _,
    spawn_next job jobs h (free_permit s r idle (ap held h)),
    λ e. ground (arith, ap (λ x. length (waiting x)) (e ∙ h)),
  )
  move_from {s} draining r idle h = inr (_, drained h idle, λ e. ground (arith, e, h))
  move_from stopped r idle h = inl tt
  move_from crashed r idle h = inl tt
  move_from (cancelled n) r idle h = inl tt

  -- Whenever a worker that was built reaches a state in which no task is in flight, `run` is over or
  -- can step to another place: it never waits for a permit that nobody will release.
  pub Reach-Moves : {s : Loop} → Reach Serves c s → s.tasks ≡ [] → IsOver s.phase ⊎ Moves Serves c s
  Reach-Moves {s} r idle = move_from s.phase r idle refl
