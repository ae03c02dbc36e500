-- ===== src/Worker/System/Survives.antt =====
-- The poll loop against whatever its reserve calls end with.
use sepp_py.Errors.Exceptions.{unfit}
use sepp_py.Common.{
  String, All, traverse, or_raise, ℕ, ◌-◌, ◌^◌, ◌<◌, ◌≤◌, max, ℤ, pos, negsuc, ◌≤ℤ◌, Bool, true,
  false, List, [], ◌∷◌, Option, none, some, Result, ok, err, ◌≡◌, ◌≢◌, refl, ap, arith,
  if◌then◌else◌, ◌+ℤ◌,
}
use sepp_py.Types.Time.{Timedelta, max_timedelta}
use sepp_py.Types.Requests.{ReserveOptions}
use sepp_py.Types.Jobs.{Job}
use sepp_py.Errors.Exceptions.{Raised, sepp}
use sepp_py.Errors.Mapping.{reserve_error_from_rpc}
use sepp_py.Wire.Runtime.{Runtime, IsLawful, IsText}
use sepp_py.Wire.Messages.{PbReserveRequest}
use sepp_py.Convert.Outgoing.{set_uint32, set_text, texts_to_pb, reserve_options_to_pb}
use sepp_py.Client.Env.{Env}
use sepp_py.Client.Monad.{and_then}
use sepp_py.Client.Policy.{Client, World}
use sepp_py.Client.Clean.{IsSepp, recover-IsSepp, call-IsRpc}
use sepp_py.Client.Reserve.{
  reserve_deadline_slack, reserve_deadline, jobs_from_pb, jobs_or_none, reserve,
}
use sepp_py.Client.Reserve.Leased.{reserve-IsLeasedTo}
use sepp_py.Worker.Config.{WorkerArgs, Config, make_worker, reserve_opts_with_capacity}
use sepp_py.Worker.Config.Capacity.{make_worker-IsReady, reserve_opts_with_capacity_bounds}
use sepp_py.Worker.Handlers.{Handlers}
use sepp_py.Worker.Client.{sepp_client}
use sepp_py.Worker.Process.{Handler}
use sepp_py.Worker.Loop
use sepp_py.Worker.Loop.{
  Phase, top, resting, reserving, Loop, spawn, take_batch, task_done, is_early_empty, signal,
  end_task, acquire, reserve_failed, reserve_crashed, reserve_empty, reserve_jobs,
}
use sepp_py.Worker.System.{
  System, Nothing, is_local, after_reserve, reserve_ended, task_ended, elsewhere, waited, reserved,
  processed_job, Reach, begin, next,
}

-- A wait timeout to which the slack of a reserve call can be added.
abbrev pub HasDeadline : Timedelta → Type 0
HasDeadline wait_timeout = wait_timeout +ℤ reserve_deadline_slack ≤ℤ max_timedelta

-- The queues and the worker id have no lone surrogates.
abbrev pub HasTexts : ReserveOptions → Type 0
HasTexts opts = All IsText opts.queues × ((s : String) → opts.worker_id ≡ some s → IsText s)

-- A maximum that fits its unsigned 32-bit field, a deadline that can be represented, and texts that
-- can be encoded.
abbrev IsSendable : ReserveOptions → Type 0
IsSendable opts =
    HasTexts opts
    × HasDeadline opts.wait_timeout
    × (n : ℕ) × (opts.max_jobs ≡ some (pos n))
    × (n < 2 ^ 32)

abbrev Survives : Phase → Type 0
Survives (reserving opts) = IsSendable opts
Survives Phase.crashed = ⊥
Survives _ = Unit

texts_sent :
    (rt : Runtime) (texts : List String)
    → IsLawful rt
    → All IsText texts
    → traverse (λ s. or_raise (rt.text s) unfit) texts ≡ ok texts
texts_sent rt [] lawful h = refl
texts_sent rt (s ∷ texts) lawful (t, h) =
    rw (lawful.text_fits s t) (rw (texts_sent rt texts lawful h) refl)

text_sent :
    (rt : Runtime) (text : Option String)
    → IsLawful rt
    → ((s : String) → text ≡ some s → IsText s)
    → set_text rt text ≡ ok text
unfolding set_text
text_sent rt none lawful h = refl
text_sent rt (some s) lawful h = rw (lawful.text_fits s (h s refl), set_text) refl

sendable_request :
    (rt : Runtime) (opts : ReserveOptions)
    → IsLawful rt
    → IsSendable opts
    → (req : PbReserveRequest) × (reserve_options_to_pb rt opts ≡ ok req)
unfolding reserve_options_to_pb set_uint32 texts_to_pb
sendable_request rt opts lawful ((queues, worker), due, n, e, fits) =
    let kept = lawful.uint32_fits n fits in
    let sent = texts_sent rt opts.queues lawful queues in
    let named = text_sent rt opts.worker_id lawful worker in
    rw (sent, named, e, kept, reserve_options_to_pb, texts_to_pb, set_uint32) (_, refl)

answered-IsSepp :
    {W A B : Type 0} (f : A → B) (o : Result Raised A × W)
    → IsSepp o
    → IsSepp (and_then o (λ a w. (ok (f a), w)))
answered-IsSepp f (ok a, w) h = tt
answered-IsSepp f (err (sepp e), w) h = tt
answered-IsSepp f (err _, w) h = absurd h

deadline_ok :
    (wait_timeout : Timedelta)
    → HasDeadline wait_timeout
    → reserve_deadline wait_timeout ≡ ok (wait_timeout +ℤ reserve_deadline_slack)
unfolding reserve_deadline
deadline_ok wait_timeout due = ground (arith, due)

-- A reserve call whose maximum and deadline fit returns or raises an exception of the library.
reserve-IsSepp :
    (env : Env) (client : Client env) (opts : ReserveOptions) (w : World env)
    → IsLawful env.runtime
    → IsSendable opts
    → IsSepp (reserve env client opts w)
unfolding reserve
reserve-IsSepp env client opts w lawful fits =
    let (req, e) = sendable_request env.runtime opts lawful fits in
    let deadline = env.total_seconds (opts.wait_timeout +ℤ reserve_deadline_slack) in
    rw (e, deadline_ok opts.wait_timeout fits.1, reserve)
      (answered-IsSepp (λ resp. jobs_or_none (jobs_from_pb env.runtime opts.worker_id resp)) _
        (recover-IsSepp reserve_error_from_rpc _
          (call-IsRpc env client env.stub_reserve deadline "sepp.reserve" req w)))

Survives-after_empty : (early : Bool) → Survives (if early then resting else top)
Survives-after_empty true = tt
Survives-after_empty false = tt

after_reserve-Survives :
    {W : Type 0} (opts : ReserveOptions) (elapsed : Timedelta)
    (o : Result Raised (Option (List Job)) × W) (s : Loop)
    → IsSepp o
    → ((jobs : List Job) → o.0 ≡ ok (some jobs) → jobs ≢ [])
    → Survives (after_reserve opts elapsed o.0 s).phase
unfolding after_reserve take_batch spawn
after_reserve-Survives opts elapsed (ok none, w) s h n =
    Survives-after_empty (is_early_empty elapsed opts)
after_reserve-Survives opts elapsed (ok (some []), w) s h n = absurd (n [] refl refl)
after_reserve-Survives opts elapsed (ok (some (job ∷ jobs)), w) s h n = tt
after_reserve-Survives opts elapsed (err (sepp e), w) s h n = tt
after_reserve-Survives opts elapsed (err _, w) s h n = absurd h

fitting :
    (opts : ReserveOptions) (k : ℤ) (most in_flight : ℕ)
    → HasTexts opts
    → HasDeadline opts.wait_timeout
    → opts.max_jobs ≡ some k
    → pos 1 ≤ℤ k
    → k ≤ℤ pos (max 1 (most - in_flight))
    → 1 ≤ most
    → most < 2 ^ 32
    → IsSendable opts
fitting opts (pos n) most in_flight texts due e low high room fits =
    (texts, due, n, e, ground (arith, high, room, fits))
fitting opts (negsuc n) most in_flight texts due e low high room fits = ground (arith, low)

module _ (a : WorkerArgs) {c : Config} (made : make_worker a ≡ ok c)
    (fits : c.max_in_flight < 2 ^ 32) (due : HasDeadline c.opts.wait_timeout)
    (texts : HasTexts c.opts) where
  acquired-IsSendable :
      (in_flight : ℕ) (opts : ReserveOptions)
      → reserve_opts_with_capacity c in_flight ≡ ok opts
      → IsSendable opts
  acquired-IsSendable in_flight opts e =
      let ready = make_worker-IsReady a c made in
      let (k, options, low, high, within) = reserve_opts_with_capacity_bounds a c in_flight made in
      let same : opts ≡ record c.opts { max_jobs = some k } = cc in
      let wait : opts.wait_timeout ≡ c.opts.wait_timeout = ap (λ o. o.wait_timeout) same in
      fitting opts k c.max_in_flight in_flight (rw same texts) (rw wait due)
        (ap (λ o. o.max_jobs) same) low high ready.room fits

  local-Survives :
      {s t : Loop} (x : Loop.Step Nothing c s t)
      → is_local x ≡ true
      → Survives s.phase
      → Survives t.phase
  unfolding is_local spawn
  local-Survives signal l i = i
  local-Survives (end_task job before behind e) l i = cc l
  local-Survives {s} (acquire opts h free e) l i = acquired-IsSendable s.in_flight opts e
  local-Survives (reserve_crashed opts h) l i = cc l
  local-Survives (reserve_empty opts elapsed h) l i = cc l
  local-Survives (reserve_jobs opts job jobs h served) l i = absurd served
  local-Survives _ l i = tt

  module _ {env : Env} (lawful : IsLawful env.runtime) (client : Client env)
      {Outside : World env → World env → Type 0} {hs : Handlers (Handler (World env))}
      {otel_available : Bool} {w : World env} where
    Reach-Survives :
        {s : System (World env)}
        → Reach (sepp_client env client) Outside c hs otel_available w s
        → Survives s.loop.phase
    unfolding reserve_ended task_ended task_done
    Reach-Survives begin = tt
    Reach-Survives (next r (elsewhere w step)) = Reach-Survives r
    Reach-Survives (next r (waited x l)) = local-Survives x l (Reach-Survives r)
    Reach-Survives (next {s} r (reserved opts elapsed h)) =
        let o = reserve env client opts s.world in
        let sendable : IsSendable opts = rw h at (Reach-Survives r) in
        after_reserve-Survives opts elapsed o s.loop
          (reserve-IsSepp env client opts s.world lawful sendable)
          (λ jobs e. (reserve-IsLeasedTo env client opts s.world jobs o.1 (ap (λ r. (r, o.1)) e)).0)
    Reach-Survives (next r (processed_job job before behind clock lates e)) = Reach-Survives r

    -- For a worker that was built, with fewer than 2 ^ 32 jobs in flight at most, a wait timeout at
    -- least ten seconds short of timedelta.max, names of queues and an id without lone surrogates, and a protobuf runtime that keeps to its documented
    -- behaviour: whatever the server answers, no reserve call ends `run` by an exception.
    pub never_crashed :
        {s : System (World env)}
        → Reach (sepp_client env client) Outside c hs otel_available w s
        → s.loop.phase ≢ Phase.crashed
    never_crashed r h = rw h at (Reach-Survives r)
