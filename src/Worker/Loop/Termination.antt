-- ===== src/Worker/Loop/Termination.antt =====
-- How long a stop can take.
use sepp_py.Common.{
  ℕ, zero, suc, ◌+◌, ◌*◌, ◌≤◌, ◌<◌, ◌≡◌, Bool, true, false, List, ◌∷◌, length, length-append, ap,
  arith, if◌then◌else◌,
}
use sepp_py.Types.Requests.{ReserveOptions}
use sepp_py.Types.Jobs.{Job}
use sepp_py.Worker.Config.{Config}
use sepp_py.Worker.Loop.{
  Phase, top, acquiring, reserving, resting, spawning, draining, Loop, is_cancellable, spawn,
  task_done, take_batch, is_early_empty, Step, signal, end_task, enter, leave, acquire,
  acquire_abandoned, reserve_failed, reserve_abandoned, reserve_crashed, reserve_empty,
  reserve_jobs, spawn_next, batch_done, rested, rest_abandoned, drained, cancel, Reach, begin, next,
}
use sepp_py.Worker.Loop.Permits.{Reach-IsAccounted}
use sepp_py.Worker.Loop.Drain.{waiting}
use sepp_py.Worker.Loop.Shutdown.{Step-shutdown}

-- How many steps a place can still lead to, apart from the ends of tasks; `most` bounds a batch.
abbrev pub rank : ℕ → Phase → ℕ
rank most acquiring = 2 * most + 5
rank most (reserving opts) = 2 * most + 4
rank most (spawning jobs) = 2 * length jobs + 3
rank most resting = 3
rank most top = 2
rank most draining = 1
rank most _ = 0

abbrev pub weight : ℕ → Loop → ℕ
weight most s = rank most s.phase + length s.tasks

rank_after_empty : (most : ℕ) (early : Bool) → rank most (if early then resting else top) ≤ 3
rank_after_empty most true = omega arith
rank_after_empty most false = omega arith

rank_bound : (most : ℕ) (p : Phase) → length (waiting p) ≤ most → rank most p ≤ 2 * most + 5
rank_bound most p h = ground arith

waiting_after_empty :
    (most : ℕ) (early : Bool) → length (waiting (if early then resting else top)) ≤ most
waiting_after_empty most true = omega arith
waiting_after_empty most false = omega arith

rank_cancellable : (most : ℕ) (p : Phase) → is_cancellable p ≡ true → 1 ≤ rank most p
rank_cancellable most p h = ground arith

module _ (Serves : ReserveOptions → List Job → Type 0) (c : Config) where
  -- A step that is not another call of `shutdown()`, which changes nothing once the signal is set.
  abbrev pub IsOwn : {s t : Loop} → Step Serves c s t → Type 0
  IsOwn signal = ⊥
  IsOwn _ = Unit

  -- That many steps, none of them another call of `shutdown()`.
  pub data Takes (s : Loop) : ℕ → Loop → Type 0 where
    none_yet : Takes s zero s
    one_more :
        {n : ℕ} {t u : Loop} → Takes s n t → (x : Step Serves c t u) → IsOwn x → Takes s (suc n) u

module _ {Serves : ReserveOptions → List Job → Type 0} {c : Config} (most : ℕ)
    (batch : (opts : ReserveOptions) (jobs : List Job)
      → Serves opts jobs
      → length jobs ≤ most) where
  Step-weight :
      {s t : Loop} (x : Step Serves c s t)
      → IsOwn Serves c x
      → s.shutdown ≡ true
      → weight most t < weight most s
  unfolding spawn task_done take_batch
  Step-weight signal own d = absurd own
  Step-weight (end_task job before behind e) own d =
      ground (arith, ap length e, length-append before (job ∷ behind), length-append before behind)
  Step-weight (enter h n) own d = ground (arith, d, n)
  Step-weight (leave h n) own d = ground (arith, ap (rank most) h)
  Step-weight (acquire opts h free e) own d = ground (arith, ap (rank most) h)
  Step-weight (acquire_abandoned h n) own d = ground (arith, ap (rank most) h)
  Step-weight (reserve_failed opts h) own d = ground (arith, ap (rank most) h)
  Step-weight (reserve_abandoned opts h n) own d = ground (arith, ap (rank most) h)
  Step-weight (reserve_crashed opts h) own d = ground (arith, ap (rank most) h)
  Step-weight (reserve_empty opts elapsed h) own d =
      ground (arith, ap (rank most) h, rank_after_empty most (is_early_empty elapsed opts))
  Step-weight (reserve_jobs opts job jobs h served) own d =
      ground (arith, ap (rank most) h, batch opts (job ∷ jobs) served)
  Step-weight (spawn_next job jobs h free) own d = ground (arith, ap (rank most) h)
  Step-weight (batch_done h) own d = ground (arith, ap (rank most) h)
  Step-weight (rested h) own d = ground (arith, ap (rank most) h)
  Step-weight (rest_abandoned h n) own d = ground (arith, ap (rank most) h)
  Step-weight (drained h none_left) own d = ground (arith, ap (rank most) h)
  Step-weight {s} (cancel h) own d = ground (arith, rank_cancellable most s.phase h)

  Takes-weight :
      {s t : Loop} {n : ℕ}
      → Takes Serves c s n t
      → s.shutdown ≡ true
      → (t.shutdown ≡ true) × (weight most t + n ≤ weight most s)
  Takes-weight none_yet d = (d, omega arith)
  Takes-weight (one_more run x own) d =
      let (d', bound) = Takes-weight run d in
      (Step-shutdown x d', ground (arith, bound, Step-weight x own d'))

  Step-waiting :
      {s t : Loop}
      → Step Serves c s t
      → length (waiting s.phase) ≤ most
      → length (waiting t.phase) ≤ most
  unfolding spawn task_done take_batch
  Step-waiting signal i = i
  Step-waiting (end_task job before behind e) i = i
  Step-waiting (reserve_empty opts elapsed h) i =
      waiting_after_empty most (is_early_empty elapsed opts)
  Step-waiting (reserve_jobs opts job jobs h served) i =
      ground (arith, batch opts (job ∷ jobs) served)
  Step-waiting (spawn_next job jobs h free) i = ground (arith, i, ap (λ x. length (waiting x)) h)
  Step-waiting _ i = omega arith

  Reach-waiting : {s : Loop} → Reach Serves c s → length (waiting s.phase) ≤ most
  Reach-waiting begin = omega arith
  Reach-waiting (next r step) = Step-waiting step (Reach-waiting r)

  -- Where no batch has more than `most` jobs: from any state that the poll loop reaches, once the
  -- shutdown signal is set, it takes at most 2 * most + 5 + max_in_flight steps, the ends of tasks
  -- included, however the race between server, tasks and caller goes.
  pub shutdown_terminates :
      {s t : Loop} {n : ℕ}
      → Reach Serves c s
      → s.shutdown ≡ true
      → Takes Serves c s n t
      → n ≤ 2 * most + 5 + c.max_in_flight
  shutdown_terminates {s} r d run =
      let counted = Reach-IsAccounted r in
      ground (
        arith,
        Takes-weight run d,
        rank_bound most s.phase (Reach-waiting r),
        counted.permits,
        counted.tasks,
      )
