-- ===== src/Types/Construct.antt =====
-- Which arguments the constructors of the domain types accept.
use sepp_py.Common.{
  ℕ, suc, ℤ, pos, ◌≤ℤ◌, ◌<ℤ◌, List, [], ◌∷◌, String, is_empty_iff, Option, none, some, IsOk, ok,
  ◌≡◌, ◌≢◌, false, ◌↔◌, All, arith,
}
use sepp_py.Types.Priority.{make_priority}
use sepp_py.Types.Requests.{
  PriorityArg, absent, given, bare_int, bare_bool, EnqueueArgs, ReserveOptions, coerce_priority,
  make_enqueue_request, is_nil, too_few, blank, check_queues, make_reserve_options,
}

-- A priority that a caller may pass: none, a Priority, or an integer of 0 to 9 that is no bool.
abbrev pub IsPriorityArg : PriorityArg → Type 0
IsPriorityArg absent = Unit
IsPriorityArg (given p) = Unit
IsPriorityArg (bare_int v) = (pos 0 ≤ℤ v) × (v ≤ℤ pos 9)
IsPriorityArg (bare_bool b) = ⊥

-- An enqueue request can be made exactly with a queue, a job type and a priority in range.
make_enqueue_request_iff :
    (a : EnqueueArgs)
    → IsOk (make_enqueue_request a)
      ↔ ((a.queue ≢ "") × (a.job_type ≢ "") × IsPriorityArg a.priority)
unfolding make_enqueue_request coerce_priority make_priority
make_enqueue_request_iff a = ground (arith, is_empty_iff a.queue, is_empty_iff a.job_type)

unfoldable pub AllNamed : List String → Type 0
AllNamed queues = All (λ q. q ≢ "") queues

check_queues_iff : (i : ℕ) (qs : List String) → IsOk (check_queues i qs) ↔ AllNamed qs
unfolding check_queues AllNamed
check_queues_iff i [] = ground arith
check_queues_iff i (q ∷ qs) = ground (arith, check_queues_iff (suc i) qs, is_empty_iff q)

abbrev pub IsMaxJobs : Option ℤ → Type 0
IsMaxJobs none = Unit
IsMaxJobs (some n) = pos 1 ≤ℤ n

abbrev pub IsWorkerId : Option String → Type 0
IsWorkerId none = Unit
IsWorkerId (some s) = s ≢ ""

blank_iff : (w : Option String) → (blank w ≡ false) ↔ IsWorkerId w
blank_iff none = ground arith
blank_iff (some s) = is_empty_iff s

too_few_iff : (n : Option ℤ) → (too_few n ≡ false) ↔ IsMaxJobs n
too_few_iff none = ground arith
too_few_iff (some n) = ground arith

is_nil_iff : (qs : List String) → (is_nil qs ≡ false) ↔ (qs ≢ [])
is_nil_iff [] = ground arith
is_nil_iff (q ∷ qs) = ground arith

pub record IsReservable (o : ReserveOptions) : Type 0 where
  pub some_queue : o.queues ≢ []
  pub all_named : AllNamed o.queues
  pub positive_lease : pos 0 <ℤ o.lease_duration
  pub positive_max : IsMaxJobs o.max_jobs
  pub named_worker : IsWorkerId o.worker_id

-- Reserve options can be made exactly with at least one queue, every queue named, a positive
-- lease, a maximum of at least one job if there is one, and no empty worker id.
pub make_reserve_options_iff : (o : ReserveOptions) → IsOk (make_reserve_options o) ↔ IsReservable o
unfolding make_reserve_options
make_reserve_options_iff o = ground (
  arith,
  is_nil_iff o.queues,
  check_queues_iff 0 o.queues,
  too_few_iff o.max_jobs,
  blank_iff o.worker_id,
)

-- They are kept as given.
pub make_reserve_options-eq-ok : (o p : ReserveOptions) → make_reserve_options o ≡ ok p → p ≡ o
unfolding make_reserve_options
make_reserve_options-eq-ok o p h = ground arith
