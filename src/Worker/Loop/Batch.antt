-- ===== src/Worker/Loop/Batch.antt =====
-- The permits for a batch, when the server keeps to `max_jobs`.
use sepp_py.Common.{
  ℕ, ◌+◌, ◌-◌, ◌≤◌, ◌<◌, Bool, ℤ, pos, ◌≤ℤ◌, true, false, List, ◌∷◌, length, some, ok,
  if◌then◌else◌, ◌≡◌, ap, arith,
}
use sepp_py.Types.Requests.{ReserveOptions}
use sepp_py.Types.Jobs.{Job}
use sepp_py.Worker.Config.{WorkerArgs, Config, make_worker, reserve_opts_with_capacity}
use sepp_py.Worker.Config.Capacity.{reserve_opts_with_capacity_bounds}
use sepp_py.Worker.Loop.{
  Phase, top, reserving, resting, spawning, Loop, held, spawn, task_done, take_batch,
  is_early_empty, Step, signal, end_task, acquire, reserve_empty, reserve_jobs, spawn_next, Reach,
  begin, next,
}
use sepp_py.Worker.Loop.Permits.{IsAccounted, Reach-IsAccounted}

-- The request that is under way asks for no more jobs than there are permits, its own included, and
-- the jobs that are left of a batch are no more than the free permits.
abbrev pub Fits : ℕ → Phase → Type 0
Fits permits (reserving opts) = (k : ℤ) × (opts.max_jobs ≡ some k) × (k ≤ℤ pos (permits + 1))
Fits permits (spawning jobs) = length jobs ≤ permits
Fits permits _ = Unit

Fits-mono : (p : Phase) (a b : ℕ) → a ≤ b → Fits a p → Fits b p
Fits-mono (reserving opts) a b h (k, e, le) = (k, e, ground (arith, h, le))
Fits-mono (spawning jobs) a b h i = ground (arith, h, i)
Fits-mono _ a b h i = tt

Fits-after_empty : (n : ℕ) (early : Bool) → Fits n (if early then resting else top)
Fits-after_empty n true = tt
Fits-after_empty n false = tt

module _ {Serves : ReserveOptions → List Job → Type 0} (a : WorkerArgs) {c : Config}
    (made : make_worker a ≡ ok c)
    (keeps : (opts : ReserveOptions) (jobs : List Job) (k : ℤ)
      → Serves opts jobs
      → opts.max_jobs ≡ some k
      → pos (length jobs) ≤ℤ k) where
  acquire-Fits :
      (s : Loop) (opts : ReserveOptions)
      → IsAccounted c s
      → s.phase ≡ Phase.acquiring
      → 0 < s.permits
      → reserve_opts_with_capacity c s.in_flight ≡ ok opts
      → Fits (s.permits - 1) (reserving opts)
  acquire-Fits s opts i h free e =
      let (k, options, low, high, within) =
        reserve_opts_with_capacity_bounds a c s.in_flight made in
      let same : opts ≡ record c.opts { max_jobs = some k } = cc in
      (k, ap (λ o. o.max_jobs) same, ground (arith, high, free, i.permits, ap held h))

  Step-Fits :
      {s t : Loop}
      → Step Serves c s t
      → IsAccounted c s
      → Fits s.permits s.phase
      → Fits t.permits t.phase
  unfolding spawn task_done take_batch
  Step-Fits signal i f = f
  Step-Fits {s} (end_task job before behind e) i f =
      Fits-mono s.phase s.permits (s.permits + 1) (omega arith) f
  Step-Fits {s} (acquire opts h free e) i f = acquire-Fits s opts i h free e
  Step-Fits (reserve_empty opts elapsed h) i f = Fits-after_empty _ (is_early_empty elapsed opts)
  Step-Fits {s} (reserve_jobs opts job jobs h served) i f =
      let (k, e, le) = rw h at f in ground (arith, keeps opts (job ∷ jobs) k served e, le)
  Step-Fits {s} (spawn_next job jobs h free) i f =
      let fits : length (job ∷ jobs) ≤ s.permits = rw h at f in ground (arith, fits)
  Step-Fits _ i f = tt

  Reach-Fits : {s : Loop} → Reach Serves c s → Fits s.permits s.phase
  Reach-Fits begin = tt
  Reach-Fits (next r x) = Step-Fits x (Reach-IsAccounted r) (Reach-Fits r)

  -- For a worker that was built, and a server whose batches have no more jobs than the request asked
  -- for: in every state that the poll loop reaches, there is a free permit for each job that is left
  -- of a batch. Starting a batch never waits for a job to end.
  pub batch_has_permits :
      {s : Loop} (jobs : List Job)
      → Reach Serves c s
      → s.phase ≡ spawning jobs
      → length jobs ≤ s.permits
  batch_has_permits {s} jobs r h = rw h at (Reach-Fits r)
