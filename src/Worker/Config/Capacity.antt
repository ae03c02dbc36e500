-- ===== src/Worker/Config/Capacity.antt =====
-- The options of the poll loop's reserve calls.
use sepp_py.Common.{
  ℕ, max, ◌-◌, ◌≤◌, ℤ, pos, ◌≤ℤ◌, Option, none, some, ok, ◌≡◌, ap, ◌∙◌, inl, inr, Result-cases,
  arith, >>=-eq-ok, ◌>>=◌, raise_if,
}
use sepp_py.Types.Faults.{wait_timeout_too_short}
use sepp_py.Types.Requests.{make_reserve_options}
use sepp_py.Types.Construct.{
  make_reserve_options_iff, make_reserve_options-eq-ok, IsReservable, IsMaxJobs,
}
use sepp_py.Worker.Config.{
  WorkerArgs, Config, asked, built, not_positive, make_worker, capacity, capped,
  reserve_opts_with_capacity,
}

-- What `Worker.__init__` leaves behind.
pub record IsReady (c : Config) : Type 0 where
  pub opts : IsReservable c.opts
  pub room : 1 ≤ c.max_in_flight

pub make_worker-IsReady : (a : WorkerArgs) (c : Config) → make_worker a ≡ ok c → IsReady c
unfolding make_worker built
make_worker-IsReady a c h =
    let (u, e, rest) =
      >>=-eq-ok (raise_if (not_positive a.wait_timeout) wait_timeout_too_short)
        (λ _. make_reserve_options (asked a) >>= λ o. ok (built a o)) h in
    let (o, made, same) = >>=-eq-ok (make_reserve_options (asked a)) (λ o. ok (built a o)) rest in
    ground
      (arith, same, make_reserve_options-eq-ok (asked a) o made, make_reserve_options_iff (asked a))

abbrev pub IsWithin : Option ℤ → ℤ → Type 0
IsWithin none k = Unit
IsWithin (some m) k = k ≤ℤ m

capped-bounds :
    (m : Option ℤ) (n : ℕ)
    → IsMaxJobs m
    → 1 ≤ n
    → (pos 1 ≤ℤ capped m (pos n)) × (capped m (pos n) ≤ℤ pos n) × IsWithin m (capped m (pos n))
capped-bounds none n h p = ground (arith, h, p)
capped-bounds (some m) n h p = ground (arith, h, p)

-- For a worker that was built, and any number of jobs in flight, the options of the next reserve
-- call are made without an error. They are the worker's, with a maximum of at least one job, of
-- at most the free capacity, and of at most the worker's own maximum if it has one.
pub reserve_opts_with_capacity_bounds :
    (a : WorkerArgs) (c : Config) (in_flight : ℕ)
    → make_worker a ≡ ok c
    → (k : ℤ) × (reserve_opts_with_capacity c in_flight ≡ ok (record c.opts { max_jobs = some k }))
      × (pos 1 ≤ℤ k)
      × (k ≤ℤ pos (max 1 (c.max_in_flight - in_flight)))
      × IsWithin c.opts.max_jobs k
unfolding reserve_opts_with_capacity
reserve_opts_with_capacity_bounds a c in_flight h =
    let ready = make_worker-IsReady a c h in
    let k = capped c.opts.max_jobs (pos (capacity c in_flight)) in
    let bounds =
      capped-bounds c.opts.max_jobs (capacity c in_flight) ready.opts.positive_max (ground arith) in
    let next = record c.opts { max_jobs = some k } in
    elim (Result-cases (make_reserve_options next)) [
      | inl (o, e) ↦
          (k, e ∙ ap ok (make_reserve_options-eq-ok next o e), bounds.0, bounds.1, bounds.2)
      | inr (x, e) ↦ ground (arith, e, make_reserve_options_iff next, ready.opts, bounds)
    ]
