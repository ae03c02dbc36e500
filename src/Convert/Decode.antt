-- ===== src/Convert/Decode.antt =====
-- Which jobs of a response can be decoded, and what the decoded job holds.
use sepp_py.Common.{
  IsOk, ◌≤◌, pos, ◌≤ℤ◌, [], ◌∷◌, String, Dict, put, Option, none, ◌≢◌, ◌↔◌, arith, All,
  is_empty_iff,
}
use sepp_py.Types.Requests.{Primitive}
use sepp_py.Types.Priority.{make_priority}
use sepp_py.Wire.WellKnown.{Timestamp}
use sepp_py.Wire.Messages.{PbPrimitiveValue, PbJob}
use sepp_py.Wire.Runtime.{Runtime}
use sepp_py.Convert.Time.{timestamp_to_datetime}
use sepp_py.Convert.Values.{primitive_from_pb}
use sepp_py.Convert.Incoming.{priority_from_pb, custom_from_pb, job_from_pb}

-- From the epoch on, and accepted by the protobuf runtime.
abbrev pub IsRepresentable : Runtime → Timestamp → Type 0
IsRepresentable rt ts = (pos 0 ≤ℤ ts.seconds) × (pos 0 ≤ℤ ts.nanos) × (rt.to_datetime ts ≢ none)

unfoldable pub AllSet : Dict PbPrimitiveValue → Type 0
AllSet m = All (λ e. e.1 ≢ PbPrimitiveValue.unset) m

pub record IsDecodable (rt : Runtime) (j : PbJob) : Type 0 where
  pub has_id : j.id ≢ ""
  pub has_job_type : j.job_type ≢ ""
  pub priority_fits : j.priority ≤ 9
  pub enqueued : IsRepresentable rt j.enqueued_at
  pub expires : IsRepresentable rt j.lease_expires_at
  pub values_set : AllSet j.custom

custom_from_pb_iff :
    (acc : Dict Primitive) (m : Dict PbPrimitiveValue) → IsOk (custom_from_pb acc m) ↔ AllSet m
unfolding custom_from_pb primitive_from_pb AllSet
custom_from_pb_iff acc [] = ground arith
custom_from_pb_iff acc ((k, PbPrimitiveValue.unset) ∷ m) = ground arith
custom_from_pb_iff acc ((k, PbPrimitiveValue.string_value s) ∷ m) =
    ground (arith, custom_from_pb_iff (put k (Primitive.str s) acc) m)
custom_from_pb_iff acc ((k, PbPrimitiveValue.double_value s) ∷ m) =
    ground (arith, custom_from_pb_iff (put k (Primitive.float s) acc) m)
custom_from_pb_iff acc ((k, PbPrimitiveValue.int_value s) ∷ m) =
    ground (arith, custom_from_pb_iff (put k (Primitive.int s) acc) m)
custom_from_pb_iff acc ((k, PbPrimitiveValue.bool_value s) ∷ m) =
    ground (arith, custom_from_pb_iff (put k (Primitive.bool s) acc) m)

-- A job is decoded exactly when it has an id and a type, a priority of 0 to 9, two representable
-- timestamps, and no custom value unset; otherwise it is refused.
pub job_from_pb_iff :
    (rt : Runtime) (j : PbJob) (worker_id : Option String)
    → IsOk (job_from_pb rt j worker_id) ↔ IsDecodable rt j
unfolding job_from_pb priority_from_pb make_priority timestamp_to_datetime
job_from_pb_iff rt j worker_id =
    ground (arith, custom_from_pb_iff [] j.custom, is_empty_iff j.id, is_empty_iff j.job_type)
