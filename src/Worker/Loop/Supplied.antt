-- ===== src/Worker/Loop/Supplied.antt =====
-- What holds of every job that the server gives out, for the jobs of the poll loop.
use sepp_py.Common.{
  ℕ, Bool, true, false, List, [], ◌∷◌, ◌++◌, String, Option, ok, if◌then◌else◌, ◌≡◌, All, arith,
}
use mathlib.Core.Path.{subst}
use sepp_py.Types.Requests.{ReserveOptions, make_reserve_options}
use sepp_py.Types.Jobs.{Job}
use sepp_py.Worker.Config.{Config, reserve_opts_with_capacity}
use sepp_py.Worker.Loop.{
  Phase, top, reserving, resting, spawning, Loop, spawn, task_done, take_batch, is_early_empty,
  Step, signal, end_task, acquire, reserve_empty, reserve_jobs, spawn_next, cancel, Reach, begin,
  next,
}

pub All-split {ℓ κ} :
    {A : Type ℓ} (P : A → Type κ) (xs : List A) (y : A) (zs : List A)
    → All P (xs ++ y ∷ zs)
    → P y × All P (xs ++ zs)
All-split P [] y zs h = h
All-split P (x ∷ xs) y zs (p, h) = let (q, rest) = All-split P xs y zs h in (q, (p, rest))

reserve_opts-worker_id :
    (c : Config) (n : ℕ) (opts : ReserveOptions)
    → reserve_opts_with_capacity c n ≡ ok opts
    → opts.worker_id ≡ c.opts.worker_id
unfolding reserve_opts_with_capacity make_reserve_options
reserve_opts-worker_id c n opts h = ground arith

module _ (P : Option String → Job → Type 0) (worker_id : Option String) where
  -- The jobs that are left of a batch, and the options of a reserve call that is under way.
  abbrev pub Waiting : Phase → Type 0
  Waiting (reserving opts) = opts.worker_id ≡ worker_id
  Waiting (spawning jobs) = All (P worker_id) jobs
  Waiting _ = Unit

  pub record IsSupplied (s : Loop) : Type 0 where
    pub tasks : All (P worker_id) s.tasks
    pub waiting : Waiting s.phase

  Waiting-after_empty : (early : Bool) → Waiting (if early then resting else top)
  Waiting-after_empty true = tt
  Waiting-after_empty false = tt

module _ (P : Option String → Job → Type 0) {Serves : ReserveOptions → List Job → Type 0}
    {c : Config}
    (supplies : (opts : ReserveOptions) (jobs : List Job)
      → Serves opts jobs
      → All (P opts.worker_id) jobs) where
  Step-IsSupplied :
      {s t : Loop}
      → Step Serves c s t
      → IsSupplied P c.opts.worker_id s
      → IsSupplied P c.opts.worker_id t
  unfolding spawn task_done take_batch
  Step-IsSupplied signal i = record { tasks = i.tasks; waiting = i.waiting }
  Step-IsSupplied (end_task job before behind e) i = record {
    tasks =
        let (p, rest) = All-split (P c.opts.worker_id) before job behind (rw e at i.tasks) in rest;
    waiting = i.waiting;
  }
  Step-IsSupplied {s} (acquire opts h free e) i = record {
    tasks = i.tasks;
    waiting = reserve_opts-worker_id c s.in_flight opts e;
  }
  Step-IsSupplied (reserve_empty opts elapsed h) i = record {
    tasks = i.tasks;
    waiting = Waiting-after_empty P c.opts.worker_id (is_early_empty elapsed opts);
  }
  Step-IsSupplied (reserve_jobs opts job jobs h served) i =
      let same : opts.worker_id ≡ c.opts.worker_id = rw h at i.waiting in
      let fits : All (P c.opts.worker_id) (job ∷ jobs) =
        subst (λ v. All (P v) (job ∷ jobs)) same (supplies opts (job ∷ jobs) served) in
      record { tasks = (fits.0, i.tasks); waiting = fits.1 }
  Step-IsSupplied (spawn_next job jobs h free) i =
      let (p, rest) = rw h at i.waiting in record { tasks = (p, i.tasks); waiting = rest }
  Step-IsSupplied (cancel h) i = record { tasks = tt; waiting = tt }
  Step-IsSupplied _ i = record { tasks = i.tasks; waiting = tt }

  -- What holds of each job that the server gives out for the worker of a request holds, for the
  -- worker's own id, of each job in flight and each that is left of a batch.
  pub Reach-IsSupplied : {s : Loop} → Reach Serves c s → IsSupplied P c.opts.worker_id s
  Reach-IsSupplied begin = record { tasks = tt; waiting = tt }
  Reach-IsSupplied (next r x) = Step-IsSupplied x (Reach-IsSupplied r)
