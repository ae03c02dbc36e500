-- ===== src/Convert/Replay.antt =====
-- A dead-lettered job that is submitted again.
use sepp_py.Common.{
  ℕ, true, false, Option, none, some, ok, err, ◌≡◌, ◌≢◌, refl, ap, ◌∙◌, arith, is_empty,
  is_empty_iff, IsOk, ◌↔◌, inl, inr, Option-cases,
}
use mathlib.Core.Option
use sepp_py.Types.Faults.{empty_queue_name}
use sepp_py.Types.Priority.{Priority, make_priority}
use sepp_py.Types.Requests.{EnqueueRequest, coerce_priority}
use sepp_py.Types.Jobs.{DeadLetterRecord, nonzero, to_enqueue_request}
use sepp_py.Wire.Messages.{PbPayload, PbEnqueueRequest, PbJob, PbDeadLetterRecord}
use sepp_py.Wire.Runtime.{Runtime, IsLawful}
use sepp_py.Convert.Values.{payload_to_pb, payload_from_pb}
use sepp_py.Convert.Outgoing.{set_uint32, scheduled_at_to_pb, enqueue_request_to_pb}
use sepp_py.Convert.Incoming.{priority_from_pb, dead_letter_record_from_pb}

-- The fields of a decoded record that a replay uses.
dead_letter_record_from_pb-fields :
    (rt : Runtime) (r : PbDeadLetterRecord) (j : PbJob) {d : DeadLetterRecord}
    → r.job ≡ some j
    → dead_letter_record_from_pb rt r ≡ ok d
    → record {
      payload : d.payload ≡ Option.map payload_from_pb j.payload;
      queue : d.queue ≡ j.queue;
      job_type : d.job_type ≡ j.job_type;
      has_job_type : is_empty j.job_type ≡ false;
      max_attempts : d.max_attempts ≡ j.max_attempts;
      priority : priority_from_pb j.priority ≡ ok d.priority;
    }
unfolding dead_letter_record_from_pb
dead_letter_record_from_pb-fields rt r j e h = ground arith

payload_resent :
    (p : Option PbPayload) → Option.map payload_to_pb (Option.map payload_from_pb p) ≡ p
unfolding payload_from_pb payload_to_pb
payload_resent none = refl
payload_resent (some p) = refl

-- The request that replays a record.
abbrev replay_of : DeadLetterRecord → EnqueueRequest
replay_of d = record {
  queue = d.queue;
  job_type = d.job_type;
  payload = d.payload;
  idempotency_key = none;
  priority = some d.priority;
  max_attempts = nonzero d.max_attempts;
  custom = d.custom;
  trace_context = d.trace_context;
  scheduled_at = none;
}

to_enqueue_request_lem :
    (d : DeadLetterRecord)
    → is_empty d.job_type ≡ false
    → (is_empty d.queue ≡ false → to_enqueue_request d ≡ ok (replay_of d))
      × (is_empty d.queue ≡ true → to_enqueue_request d ≡ err empty_queue_name)
unfolding to_enqueue_request coerce_priority
to_enqueue_request_lem d h = ground arith

priority_resent :
    (rt : Runtime) (n : ℕ) (p : Priority) (o : Option ℕ)
    → IsLawful rt
    → priority_from_pb n ≡ ok p
    → set_uint32 rt (some p.value) ≡ ok o
    → o ≡ some n
unfolding priority_from_pb make_priority set_uint32
priority_resent rt n p o law h k = elim (Option-cases (rt.uint32 p.value)) [
  | inl e ↦ ground arith
  | inr (v, e) ↦ ground (arith, law.uint32_exact p.value v e)
]

replay_on_wire :
    (rt : Runtime) (d : DeadLetterRecord) {m : PbEnqueueRequest}
    → enqueue_request_to_pb rt (replay_of d) ≡ ok m
    → record {
      payload : m.payload ≡ Option.map payload_to_pb d.payload;
      queue : m.queue ≡ d.queue;
      job_type : m.job_type ≡ d.job_type;
      priority : set_uint32 rt (some d.priority.value) ≡ ok m.priority;
      max_attempts : set_uint32 rt (nonzero d.max_attempts) ≡ ok m.max_attempts;
      idempotency_key : m.idempotency_key ≡ none;
      scheduled_at : m.scheduled_at ≡ none;
    }
unfolding enqueue_request_to_pb scheduled_at_to_pb
replay_on_wire rt d h = ground arith

-- What a replay of the job `j` sends: the same body, queue, type and priority, to run now and with
-- no idempotency key.
abbrev pub Resent : PbJob → PbEnqueueRequest → Type 0
Resent j m =
    (m.payload ≡ j.payload)
    × (m.queue ≡ j.queue)
    × (m.job_type ≡ j.job_type)
    × (m.priority ≡ some j.priority)
    × (m.idempotency_key ≡ none)
    × (m.scheduled_at ≡ none)

replay_of-Resent :
    (rt : Runtime) (r : PbDeadLetterRecord) (j : PbJob) (d : DeadLetterRecord)
    (m : PbEnqueueRequest)
    → IsLawful rt
    → r.job ≡ some j
    → dead_letter_record_from_pb rt r ≡ ok d
    → enqueue_request_to_pb rt (replay_of d) ≡ ok m
    → Resent j m
replay_of-Resent rt r j d m law e read sent =
    let got = dead_letter_record_from_pb-fields rt r j e read in
    let wire = replay_on_wire rt d sent in
    (
      wire.payload ∙ ap (Option.map payload_to_pb) got.payload ∙ payload_resent j.payload,
      wire.queue ∙ got.queue,
      wire.job_type ∙ got.job_type,
      priority_resent rt j.priority d.priority m.priority law got.priority wire.priority,
      wire.idempotency_key,
      wire.scheduled_at,
    )

-- A decoded dead-letter record can be made into a request exactly if its job had a queue.
pub to_enqueue_request_iff :
    (rt : Runtime) (r : PbDeadLetterRecord) (j : PbJob) (d : DeadLetterRecord)
    → r.job ≡ some j
    → dead_letter_record_from_pb rt r ≡ ok d
    → IsOk (to_enqueue_request d) ↔ (j.queue ≢ "")
to_enqueue_request_iff rt r j d e read =
    let got = dead_letter_record_from_pb-fields rt r j e read in
    let made = to_enqueue_request_lem d (ap is_empty got.job_type ∙ got.has_job_type) in
    ground (arith, made, ap is_empty got.queue, is_empty_iff j.queue)

-- The message that is sent for the replay of a decoded dead-letter record has the original job's
-- payload, queue, job type and priority, no idempotency key and no schedule.
pub to_enqueue_request-Resent :
    (rt : Runtime) (r : PbDeadLetterRecord) (j : PbJob) (d : DeadLetterRecord) (q : EnqueueRequest)
    (m : PbEnqueueRequest)
    → IsLawful rt
    → r.job ≡ some j
    → dead_letter_record_from_pb rt r ≡ ok d
    → to_enqueue_request d ≡ ok q
    → enqueue_request_to_pb rt q ≡ ok m
    → Resent j m
to_enqueue_request-Resent rt r j d q m law e read made sent =
    let got = dead_letter_record_from_pb-fields rt r j e read in
    let cases = to_enqueue_request_lem d (ap is_empty got.job_type ∙ got.has_job_type) in
    let same : q ≡ replay_of d = ground (arith, cases, made) in
    replay_of-Resent rt r j d m law e read (rw same at sent)
