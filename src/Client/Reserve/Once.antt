-- ===== src/Client/Reserve/Once.antt =====
-- The two calls that are not retried: one call of the stub each, and what is kept of its response.
use sepp_py.Common.{
  ℤ, pos, max_ℤ, ◌+ℤ◌, List, [], ◌∷◌, String, Option, some, Result, ok, err, ◌≡◌, ap, sym, ◌∙◌, inl,
  inr, Result-cases, Option-cases, ℕ,
}
use sepp_py.Types.Requests.{ReserveOptions}
use sepp_py.Types.Jobs.{Job, DeadLetterRecord}
use sepp_py.Wire.Messages.{PbJob, PbDeadLetterRecord, PbReserveRequest, PbDrainDeadLettersRequest}
use sepp_py.Wire.Runtime.{Runtime}
use sepp_py.Errors.Codes.{RpcError}
use sepp_py.Errors.Exceptions.{Raised, SeppError, sepp, rpc_error, client_error, JobConversionError}
use sepp_py.Errors.Mapping.{client_error_from_rpc, reserve_error_from_rpc}
use sepp_py.Convert.Outgoing.{reserve_options_to_pb}
use sepp_py.Convert.Incoming.{job_from_pb, dead_letter_record_from_pb}
use sepp_py.Client.Env.{Env, Rpc}
use sepp_py.Client.Monad.{recover, map_rpc_error, Outcome-cases, value-injective}
use sepp_py.Client.Policy.{Client, World}
use sepp_py.Client.Trace.{call, reply, call_metadata}
use sepp_py.Client.Reserve.{reserve_deadline_slack, keep, jobs_from_pb, jobs_or_none, reserve}
use sepp_py.Client.Reserve.Leased.{reserve_deadline-cases}
use sepp_py.Client.Admin.{records_from_pb, drain_dead_letters}

-- The second list has the values of those messages of the first that can be decoded, in order.
pub data Kept {A B : Type 0} (decode : A → Result JobConversionError B)
    : List A → List B → Type 0 where
  end : Kept decode [] []
  kept :
      {m : A} {v : B} {ms : List A} {vs : List B}
      → decode m ≡ ok v
      → Kept decode ms vs
      → Kept decode (m ∷ ms) (v ∷ vs)
  skipped :
      {m : A} {e : JobConversionError} {ms : List A} {vs : List B}
      → decode m ≡ err e
      → Kept decode ms vs
      → Kept decode (m ∷ ms) vs

keep-Kept :
    {A B : Type 0} (decode : A → Result JobConversionError B) (m : A) (ms : List A) (vs : List B)
    → Kept decode ms vs
    → Kept decode (m ∷ ms) (keep (decode m) vs)
keep-Kept decode m ms vs rest = elim (Result-cases (decode m)) [
  | inl (v, e) ↦ rw e (kept e rest)
  | inr (x, e) ↦ rw e (skipped e rest)
]

jobs_from_pb-Kept :
    (rt : Runtime) (worker_id : Option String) (ms : List PbJob)
    → Kept (λ j. job_from_pb rt j worker_id) ms (jobs_from_pb rt worker_id ms)
unfolding jobs_from_pb
jobs_from_pb-Kept rt worker_id [] = end
jobs_from_pb-Kept rt worker_id (m ∷ ms) =
    keep-Kept (λ j. job_from_pb rt j worker_id) m ms _ (jobs_from_pb-Kept rt worker_id ms)

records_from_pb-Kept :
    (rt : Runtime) (ms : List PbDeadLetterRecord)
    → Kept (dead_letter_record_from_pb rt) ms (records_from_pb rt ms)
unfolding records_from_pb
records_from_pb-Kept rt [] = end
records_from_pb-Kept rt (m ∷ ms) =
    keep-Kept (dead_letter_record_from_pb rt) m ms _ (records_from_pb-Kept rt ms)

reply-ok :
    {env : Env} {A : Type 0} (w : World env) (o : Result RpcError A × env.Server) {a : A}
    {w' : World env}
    → reply {env = env} w o ≡ (ok a, w')
    → (server : env.Server) × (o ≡ (ok a, server)) × (w' ≡ record w { server = server })
reply-ok {env} {A} w (ok b, server) h = (
  server,
  ap (λ x. (ok x, server)) (value-injective h),
  sym (ap (λ (o : Result Raised A × World env). o.1) h),
)
reply-ok w (err e, server) h = cc

recover-ok :
    {W A : Type 0} (f : RpcError → SeppError) (o : Result Raised A × W) {a : A} {w' : W}
    → recover (λ e w. (err (sepp (f e)), w)) o ≡ (ok a, w')
    → o ≡ (ok a, w')
recover-ok f (err (rpc_error e), w) h = cc
recover-ok f o h = h

module _ (env : Env) {Req Resp : Type 0} (client : Client env)
    (method : Rpc env.Server env.Float Req Resp) (timeout : env.Float) (span : String)
    (req : Req) where
  -- One call of the method, answered with a value: the server moves on, nothing else changes.
  abbrev pub Answers : World env → Resp → World env → Type 0
  Answers w resp w' =
      (server : env.Server) × (method req
          (record { timeout = timeout; metadata = call_metadata env client span }) w.server
        ≡ (ok resp, server))
      × (w' ≡ record w { server = server })

  call-Answers :
      (w : World env) {resp : Resp} {w' : World env}
      → call env client method timeout span req w ≡ (ok resp, w')
      → Answers w resp w'
  unfolding call
  call-Answers w h = reply-ok {env = env} w _ h

-- `reserve` that returns has called the stub once, with a deadline of the wait timeout and ten
-- seconds, and has not slept. It returns the jobs of the response that can be decoded, in order, and
-- None if there are none.
pub reserve-Kept :
    (env : Env) (client : Client env) (opts : ReserveOptions) (w : World env)
    (out : Option (List Job)) (w' : World env)
    → reserve env client opts w ≡ (ok out, w')
    → (req : PbReserveRequest) × (messages : List PbJob) × (jobs : List Job)
      × (reserve_options_to_pb env.runtime opts ≡ ok req)
      × Answers env client env.stub_reserve
          (env.total_seconds (opts.wait_timeout +ℤ reserve_deadline_slack))
          "sepp.reserve"
          req
          w
          messages
          w'
      × (out ≡ jobs_or_none jobs)
      × Kept (λ j. job_from_pb env.runtime j opts.worker_id) messages jobs
unfolding reserve
reserve-Kept env client opts w out w' h =
    elim (Result-cases (reserve_options_to_pb env.runtime opts)) [
      | inr (x, e) ↦ cc (rw (e, reserve) at h)
      | inl (req, e) ↦
          let deadline = env.total_seconds (opts.wait_timeout +ℤ reserve_deadline_slack) in
          elim (reserve_deadline-cases opts.wait_timeout) [
            | inl late ↦ cc (rw (e, late, reserve) at h)
            | inr d ↦
                let tried =
                  map_rpc_error reserve_error_from_rpc
                    (call env client env.stub_reserve deadline "sepp.reserve" req) in
                elim (Outcome-cases (tried w)) [
                  | inr (r, w₁, f) ↦ cc (rw (e, d, f, reserve) at h)
                  | inl (messages, w₁, f) ↦
                      let h' = rw (e, d, f, reserve) at h in
                      let still : w₁ ≡ w' =
                        ap (λ (o : Result Raised (Option (List Job)) × World env). o.1) h' in
                      (
                        req,
                        messages,
                        jobs_from_pb env.runtime opts.worker_id messages,
                        e,
                        call-Answers env client env.stub_reserve deadline "sepp.reserve" req w (
                            recover-ok reserve_error_from_rpc _ f
                            ∙ ap (λ v. (ok messages, v)) still),
                        sym (value-injective h'),
                        jobs_from_pb-Kept env.runtime opts.worker_id messages,
                      )
                ]
          ]
    ]

-- `drain_dead_letters` that returns has called the stub once, for `max_records` or at least one
-- record, and has not slept. It returns the records of the response that can be decoded, in order.
pub drain_dead_letters-Kept :
    (env : Env) (client : Client env) (queue : Option String) (max_records : ℤ) (w : World env)
    (out : List DeadLetterRecord) (w' : World env)
    → drain_dead_letters env client queue max_records w ≡ (ok out, w')
    → (n : ℕ) × (messages : List PbDeadLetterRecord) × (env.runtime.uint32
          (max_ℤ max_records (pos 1))
        ≡ some n)
      × Answers env client env.stub_drain_dead_letters client.rpc_timeout "sepp.drain_dead_letters"
          (record { queue = queue; max_records = n })
          w
          messages
          w'
      × Kept (dead_letter_record_from_pb env.runtime) messages out
unfolding drain_dead_letters
drain_dead_letters-Kept env client queue max_records w out w' h =
    elim (Option-cases (env.runtime.uint32 (max_ℤ max_records (pos 1)))) [
      | inl e ↦ cc (rw (e, drain_dead_letters) at h)
      | inr (n, e) ↦
          let req : PbDrainDeadLettersRequest = record { queue = queue; max_records = n } in
          let failed = λ (x : RpcError). client_error (client_error_from_rpc x) in
          let tried = map_rpc_error failed (
            call env client env.stub_drain_dead_letters client.rpc_timeout "sepp.drain_dead_letters"
              req) in
          elim (Outcome-cases (tried w)) [
            | inr (r, w₁, f) ↦ cc (rw (e, f, drain_dead_letters) at h)
            | inl (messages, w₁, f) ↦
                let h' = rw (e, f, drain_dead_letters) at h in
                let still : w₁ ≡ w' =
                  ap (λ (o : Result Raised (List DeadLetterRecord) × World env). o.1) h' in
                (
                  n,
                  messages,
                  e,
                  call-Answers env client env.stub_drain_dead_letters client.rpc_timeout
                      "sepp.drain_dead_letters" req w
                      (recover-ok failed _ f ∙ ap (λ v. (ok messages, v)) still),
                  rw⁻¹ (value-injective h') (records_from_pb-Kept env.runtime messages),
                )
          ]
    ]
