-- ===== src/Worker/Loop/Drain.antt =====
-- What becomes of the jobs that the poll loop received.
use sepp_py.Common.{
  ℕ, suc, ◌+◌, ◌≡◌, Bool, true, false, List, [], ◌∷◌, ◌++◌, refl, ap, arith, ◌⊎◌, inl, inr, length,
  length-append, if◌then◌else◌,
}
use sepp_py.Types.Requests.{ReserveOptions}
use sepp_py.Types.Jobs.{Job}
use sepp_py.Worker.Config.{Config}
use sepp_py.Worker.Loop.{
  Phase, top, resting, spawning, cancelled, stopped, Loop, spawn, task_done, take_batch,
  is_early_empty, Step, signal, end_task, enter, leave, acquire, acquire_abandoned, reserve_failed,
  reserve_abandoned, reserve_crashed, reserve_empty, reserve_jobs, spawn_next, batch_done, rested,
  rest_abandoned, drained, cancel, Reach, begin, next,
}

-- How many entries of a list pass a test.
abbrev pub tally {ℓ} : {A : Type ℓ} → (A → Bool) → List A → ℕ
tally p [] = 0
tally p (x ∷ xs) = if p x then suc (tally p xs) else tally p xs

tally-append {ℓ} :
    {A : Type ℓ} (p : A → Bool) (xs ys : List A) → tally p (xs ++ ys) ≡ tally p xs + tally p ys
tally-append p [] ys = ground arith
tally-append p (x ∷ xs) ys = ground (arith, tally-append p xs ys)

-- The jobs of the batch that are not started yet.
abbrev pub waiting : Phase → List Job
waiting (spawning jobs) = jobs
waiting _ = []

abbrev pub is_cancelled : Phase → Bool
is_cancelled (cancelled n) = true
is_cancelled _ = false

abbrev pub is_stopped : Phase → Bool
is_stopped stopped = true
is_stopped _ = false

-- A run that has returned left no task behind.
abbrev pub IsIdle : Loop → Type 0
IsIdle s = (is_stopped s.phase ≡ false) ⊎ (length s.tasks ≡ 0)

-- The received jobs that pass a test are finished, running or waiting, unless `run` was cancelled.
abbrev pub IsBalanced : (Job → Bool) → Loop → Type 0
IsBalanced p s =
    (is_cancelled s.phase ≡ true)
    ⊎ (tally p s.received ≡ tally p s.finished + tally p s.tasks + tally p (waiting s.phase))

waiting_after_empty :
    (p : Job → Bool) (early : Bool) → tally p (waiting (if early then resting else top)) ≡ 0
waiting_after_empty p true = refl
waiting_after_empty p false = refl

stopped_after_empty : (early : Bool) → is_stopped (if early then resting else top) ≡ false
stopped_after_empty true = refl
stopped_after_empty false = refl

module _ {Serves : ReserveOptions → List Job → Type 0} {c : Config} (p : Job → Bool) where
  Step-IsBalanced : {s t : Loop} → Step Serves c s t → IsBalanced p s → IsBalanced p t
  unfolding spawn task_done take_batch
  Step-IsBalanced signal i = i
  Step-IsBalanced {s} (end_task job before behind e) i = elim i [
    | inl x ↦ inl x
    | inr b ↦ inr (
        ground (
          arith,
          b,
          ap (tally p) e,
          tally-append p before (job ∷ behind),
          tally-append p before behind,
        ))
  ]
  Step-IsBalanced (enter h d) i =
      ground (arith, i, ap is_cancelled h, ap (λ x. tally p (waiting x)) h)
  Step-IsBalanced (leave h d) i =
      ground (arith, i, ap is_cancelled h, ap (λ x. tally p (waiting x)) h)
  Step-IsBalanced (acquire opts h free e) i =
      ground (arith, i, ap is_cancelled h, ap (λ x. tally p (waiting x)) h)
  Step-IsBalanced (acquire_abandoned h d) i =
      ground (arith, i, ap is_cancelled h, ap (λ x. tally p (waiting x)) h)
  Step-IsBalanced (reserve_failed opts h) i =
      ground (arith, i, ap is_cancelled h, ap (λ x. tally p (waiting x)) h)
  Step-IsBalanced (reserve_abandoned opts h d) i =
      ground (arith, i, ap is_cancelled h, ap (λ x. tally p (waiting x)) h)
  Step-IsBalanced (reserve_crashed opts h) i =
      ground (arith, i, ap is_cancelled h, ap (λ x. tally p (waiting x)) h)
  Step-IsBalanced (reserve_empty opts elapsed h) i = ground (
    arith,
    i,
    ap is_cancelled h,
    ap (λ x. tally p (waiting x)) h,
    waiting_after_empty p (is_early_empty elapsed opts),
  )
  Step-IsBalanced {s} (reserve_jobs opts job jobs h served) i =
      ground (
        arith,
        i,
        ap is_cancelled h,
        ap (λ x. tally p (waiting x)) h,
        tally-append p jobs s.received,
      )
  Step-IsBalanced (spawn_next job jobs h free) i =
      ground (arith, i, ap is_cancelled h, ap (λ x. tally p (waiting x)) h)
  Step-IsBalanced (batch_done h) i =
      ground (arith, i, ap is_cancelled h, ap (λ x. tally p (waiting x)) h)
  Step-IsBalanced (rested h) i =
      ground (arith, i, ap is_cancelled h, ap (λ x. tally p (waiting x)) h)
  Step-IsBalanced (rest_abandoned h d) i =
      ground (arith, i, ap is_cancelled h, ap (λ x. tally p (waiting x)) h)
  Step-IsBalanced (drained h none_left) i =
      ground (arith, i, ap is_cancelled h, ap (λ x. tally p (waiting x)) h)
  Step-IsBalanced (cancel h) i = inl refl

  Reach-IsBalanced : {s : Loop} → Reach Serves c s → IsBalanced p s
  Reach-IsBalanced begin = inr refl
  Reach-IsBalanced (next r step) = Step-IsBalanced step (Reach-IsBalanced r)

module _ {Serves : ReserveOptions → List Job → Type 0} {c : Config} where
  Step-IsIdle : {s t : Loop} → Step Serves c s t → IsIdle s → IsIdle t
  unfolding spawn task_done take_batch
  Step-IsIdle signal i = i
  Step-IsIdle {s} (end_task job before behind e) i = elim i [
    | inl x ↦ inl x
    | inr n ↦ inr (ground (arith, n, ap length e, length-append before (job ∷ behind)))
  ]
  Step-IsIdle (enter h d) i = inl refl
  Step-IsIdle (leave h d) i = inl refl
  Step-IsIdle (acquire opts h free e) i = inl refl
  Step-IsIdle (acquire_abandoned h d) i = inl refl
  Step-IsIdle (reserve_failed opts h) i = inl refl
  Step-IsIdle (reserve_abandoned opts h d) i = inl refl
  Step-IsIdle (reserve_crashed opts h) i = inl refl
  Step-IsIdle (reserve_empty opts elapsed h) i =
      inl (stopped_after_empty (is_early_empty elapsed opts))
  Step-IsIdle (reserve_jobs opts job jobs h served) i = inl refl
  Step-IsIdle (spawn_next job jobs h free) i = inl refl
  Step-IsIdle (batch_done h) i = inl refl
  Step-IsIdle (rested h) i = inl refl
  Step-IsIdle (rest_abandoned h d) i = inl refl
  Step-IsIdle (drained h none_left) i = inr (ap length none_left)
  Step-IsIdle (cancel h) i = inr refl

  Reach-IsIdle : {s : Loop} → Reach Serves c s → IsIdle s
  Reach-IsIdle begin = inl refl
  Reach-IsIdle (next r step) = Step-IsIdle step (Reach-IsIdle r)

length-zero_tally : (p : Job → Bool) (xs : List Job) → length xs ≡ 0 → tally p xs ≡ 0
length-zero_tally p [] h = refl
length-zero_tally p (x ∷ xs) h = ground (arith, h)

module _ {Serves : ReserveOptions → List Job → Type 0} {c : Config} where
  -- When `run` has returned, no task is left and each job that it received was finished, as
  -- often as it was received: every test on jobs finds as many in both lists.
  pub stopped_drained :
      {s : Loop}
      → Reach Serves c s
      → s.phase ≡ stopped
      → (length s.tasks ≡ 0) × ((p : Job → Bool) → tally p s.received ≡ tally p s.finished)
  stopped_drained {s} r h =
      let idle = Reach-IsIdle r in
      let no_tasks : length s.tasks ≡ 0 = ground (arith, idle, ap is_stopped h) in
      (
        no_tasks,
        λ p. ground (
          arith,
          Reach-IsBalanced p r,
          length-zero_tally p s.tasks no_tasks,
          ap is_cancelled h,
          ap (λ x. tally p (waiting x)) h,
        ),
      )
