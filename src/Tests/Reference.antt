-- ===== src/Tests/Reference.antt =====
-- A protobuf runtime and a server to run the client with.
use sepp_py.Common.{
  ℕ, ◌+◌, ◌*◌, ◌/◌, ◌%◌, ◌-◌, ◌^◌, ◌<◌, ◌≤◌, min, ltb, ℤ, pos, negsuc, pos_part, neg_part, ◌≤ℤ◌,
  leb_ℤ, Bool, true, false, String, List, [], ◌∷◌, map, Option, none, some, Result, ok, err, ◌≡◌,
  arith, if◌then◌else◌,
}
use sepp_py.Types.Time.{Timedelta, Datetime, utc, instant_of, max_instant}
use sepp_py.Wire.WellKnown.{Timestamp, Duration}
use sepp_py.Wire.Messages.{
  PbJob, PbJobResult, PbEnqueueResponse, PbEnqueueAtomicResponse, PbPrimitiveValue, PbServerInfo,
}
use sepp_py.Wire.Runtime.{Runtime, IsLawful, is_utf8, IsText}
use sepp_py.Types.Trace.{codes}
use sepp_py.Errors.Codes.{StatusCode, RpcError}
use sepp_py.Client.Env.{Env}
use sepp_py.Client.Policy.{RetryPolicy, Client, World}

abbrev pub to_uint32 : ℤ → Option ℕ
to_uint32 (pos n) = if ltb n (2 ^ 32) then some n else none
to_uint32 (negsuc n) = none

abbrev pub to_int64 : ℤ → Option ℤ
to_int64 (pos n) = if ltb n (2 ^ 63) then some (pos n) else none
to_int64 (negsuc n) = if ltb n (2 ^ 63) then some (negsuc n) else none

abbrev pub micros : ℤ → ℤ → Option ℕ
micros (pos s) (pos n) = some (s * 1000000 + n / 1000)
micros _ _ = none

abbrev pub in_range : Option ℕ → Option Datetime
in_range none = none
in_range (some t) = if leb_ℤ (pos t) max_instant then some (utc (pos t)) else none

abbrev pub whole : Option ℕ → Option Timedelta
whole none = none
whole (some t) = some (pos t)

abbrev pub stamp : ℤ → Timestamp
stamp (pos t) = record { seconds = pos (t / 1000000); nanos = pos (t % 1000000 * 1000) }
stamp (negsuc t) = record {
  seconds = negsuc (t / 1000000);
  nanos = pos ((999999 - t % 1000000) * 1000);
}

abbrev pub span_of : Timedelta → Duration
span_of (pos t) = record { seconds = pos (t / 1000000); nanos = pos (t % 1000000 * 1000) }
span_of (negsuc t) = record { seconds = negsuc (t / 1000000); nanos = negsuc (t % 1000000 * 1000) }

-- It knows the times from the epoch on, which are all that the client decodes.
abbrev pub reference : Runtime
reference = record {
  text = λ s. if is_utf8 (codes s) then some s else none;
  uint32 = to_uint32;
  int64 = to_int64;
  to_datetime = λ ts. in_range (micros ts.seconds ts.nanos);
  from_datetime = λ d. stamp (instant_of d);
  to_timedelta = λ d. whole (micros d.seconds d.nanos);
  from_timedelta = span_of;
}

stamp_back :
    (i : ℤ)
    → pos 0 ≤ℤ i
    → i ≤ℤ max_instant
    → in_range (micros (stamp i).seconds (stamp i).nanos) ≡ some (utc i)
stamp_back (pos t) low high = ground arith
stamp_back (negsuc t) low high = ground arith

stamp_sign : (i : ℤ) → pos 0 ≤ℤ i → (pos 0 ≤ℤ (stamp i).seconds) × (pos 0 ≤ℤ (stamp i).nanos)
stamp_sign (pos t) low = ground arith
stamp_sign (negsuc t) low = ground arith

int64_kept : (v n : ℤ) → to_int64 v ≡ some n → v ≡ n
int64_kept (pos k) n h = ground arith
int64_kept (negsuc k) n h = ground arith

int64_in : (v : ℤ) → pos_part v < 2 ^ 63 → neg_part v ≤ 2 ^ 63 → to_int64 v ≡ some v
int64_in (pos k) low high = ground arith
int64_in (negsuc k) low high = ground arith

uint32_kept : (v : ℤ) (n : ℕ) → to_uint32 v ≡ some n → v ≡ pos n
uint32_kept (pos k) n h = ground arith
uint32_kept (negsuc k) n h = ground arith

text_kept : (s : String) → IsText s → reference.text s ≡ some s
text_kept s h = if_true h
  where
    if_true : {b : Bool} → b ≡ true → (if b then some s else none) ≡ some s
    if_true {b} t = ground (arith, t)

pub reference-IsLawful : IsLawful reference
reference-IsLawful = record {
  text_fits = text_kept;
  uint32_fits = λ n h. ground arith;
  uint32_large = λ n h. ground arith;
  uint32_exact = uint32_kept;
  int64_fits = int64_in;
  int64_exact = int64_kept;
  to-from_datetime = λ d low high. stamp_back (instant_of d) low high;
  from_datetime_sign = λ d low. stamp_sign (instant_of d) low;
}

-- The 2020-09-13T12:26:40Z of a job that was enqueued, and its lease of one minute.
abbrev pub noon : Timestamp
noon = record { seconds = pos 1600000000; nanos = pos 0 }

abbrev pub minute_later : Timestamp
minute_later = record { seconds = pos 1600000060; nanos = pos 0 }

abbrev pub job_1 : PbJob
job_1 = record {
  id = "job-1";
  job_type = "send_welcome";
  payload = none;
  priority = 5;
  trace_context = none;
  enqueued_at = noon;
  attempt = 1;
  max_attempts = 3;
  lease_expires_at = minute_later;
  custom = ("tenant", PbPrimitiveValue.string_value "acme") ∷ [];
  scheduled_at = none;
  queue = "emails";
}

-- The server's state: the codes with which its next calls fail; then they succeed.
abbrev pub answer : {A : Type 0} → A → List StatusCode → Result RpcError A × List StatusCode
answer a [] = (ok a, [])
answer a (c ∷ cs) = (err (record { code = c; details = none }), cs)

abbrev pub accepted : PbEnqueueResponse
accepted = record { job_id = "job-1"; deduplicated = false }

abbrev pub lease_end : Timestamp
lease_end = minute_later

abbrev pub info : PbServerInfo
info = record {
  server_version = "1.0";
  supported_protocol_versions = "v1" ∷ [];
  server_time = noon;
  restricts_encodings = false;
  allowed_encodings = [];
  max_payload_bytes = 1024;
  max_custom_entries = 8;
  max_custom_total_bytes = 1024;
  max_custom_key_bytes = 64;
  max_queue_name_bytes = 64;
  max_job_type_bytes = 64;
  max_idempotency_key_bytes = 64;
  max_schedule_horizon = record { seconds = pos 60; nanos = pos 0 };
  max_enqueue_batch = 10;
  max_reserve_batch = 10;
  max_reserve_queues = 10;
  max_wait_timeout = record { seconds = pos 60; nanos = pos 0 };
  max_lease_duration = record { seconds = pos 60; nanos = pos 0 };
  strict_queues = false;
  dead_letter_retention_enabled = true;
}

-- Floats are whole microseconds here.
abbrev pub scripted : Env
scripted = record {
  Server = List StatusCode;
  Float = ℕ;
  runtime = reference;
  total_seconds = pos_part;
  from_seconds = pos;
  times = λ a b. a * b;
  min_float = min;
  jitter_factor = λ n. 1;
  otel_available = false;
  inject = λ span. [];
  stub_enqueue_batch = λ jobs call s. answer (map (λ j. PbJobResult.success accepted) jobs) s;
  stub_enqueue_atomic =
      λ jobs call s. answer (PbEnqueueAtomicResponse.success (map (λ j. accepted) jobs)) s;
  stub_reserve = λ req call s. answer (job_1 ∷ []) s;
  stub_ack = λ req call s. answer tt s;
  stub_nack = λ req call s. answer false s;
  stub_extend = λ req call s. answer lease_end s;
  stub_drain_dead_letters = λ req call s. answer [] s;
  stub_get_server_info = λ req call s. answer info s;
}

-- Three attempts, 10 ms and then twice as long.
abbrev pub policy : RetryPolicy ℕ
policy = record {
  max_attempts = pos 3;
  initial_backoff = pos 10000;
  max_backoff = pos 1000000;
  multiplier = 2;
  jitter = false;
}

abbrev pub client : Client scripted
client = record { retry_policy = policy; auth_metadata = []; rpc_timeout = 30000000 }

abbrev pub world : List StatusCode → World scripted
world codes = record { server = codes; sleeps = []; draws = 0 }
