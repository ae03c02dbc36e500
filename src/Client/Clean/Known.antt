-- ===== src/Client/Clean/Known.antt =====
-- Which exceptions the conversions raise.
use sepp_py.Common
use sepp_py.Types.Time.{Timedelta}
use sepp_py.Client.Reserve.{reserve_deadline}
use sepp_py.Client.Lease.{present, reason_field}
use sepp_py.Common.{
  Bool-cases, is_empty, ℤ, String, List, [], ◌∷◌, Option, none, some, Result, ok, err, traverse,
  or_raise, ◌≡◌, ◌⊎◌, inl, inr, Bool, true, false, arith,
}
use sepp_py.Types.Requests.{Primitive, EnqueueRequest, ReserveOptions}
use sepp_py.Wire.Messages.{
  PbPrimitiveValue, PbJobResult, PbJobRejection, PbJobValidationError, PbServerInfo,
}
use sepp_py.Wire.Runtime.{Runtime}
use sepp_py.Errors.Exceptions.{Raised, SeppError, sepp, type_error, unfit, overflow_error}
use sepp_py.Convert.Values.{primitive_to_pb}
use sepp_py.Convert.Outgoing.{
  set_uint32, set_text, texts_to_pb, custom_to_pb, enqueue_request_to_pb, reserve_options_to_pb,
}
use sepp_py.Convert.Rejection.{
  job_rejection_from_pb, rejection_or_unknown, job_validation_error_from_pb,
}
use sepp_py.Convert.Info.{server_info_from_pb}
use sepp_py.Client.Monad.{M, and_then}
use sepp_py.Client.Enqueue.{job_result_from_pb}
use sepp_py.Client.Admin.{wrap_info}
use sepp_py.Client.Clean.{IsSepp}

-- A value, or an exception that a caller is told of: one of the library, the TypeError for a value
-- of a foreign type, what the protobuf runtime raises for a value that does not fit its field, or
-- the OverflowError of a timedelta that is out of range.
abbrev pub IsKnown : {A : Type 0} → Result Raised A → Type 0
IsKnown (ok a) = Unit
IsKnown (err (sepp e)) = Unit
IsKnown (err (type_error name)) = Unit
IsKnown (err unfit) = Unit
IsKnown (err overflow_error) = Unit
IsKnown (err _) = ⊥

bind-IsKnown :
    {A B : Type 0} (r : Result Raised A) (f : A → Result Raised B)
    → IsKnown r
    → ((a : A) → IsKnown (f a))
    → IsKnown (Common.◌>>=◌ r f)
bind-IsKnown (ok a) f h k = k a
bind-IsKnown (err (sepp e)) f h k = tt
bind-IsKnown (err (type_error name)) f h k = tt
bind-IsKnown (err unfit) f h k = tt
bind-IsKnown (err overflow_error) f h k = tt
bind-IsKnown (err _) f h k = absurd h

pub and_then-IsKnown :
    {W A B : Type 0} (o : Result Raised A × W) (f : A → M W B)
    → IsKnown o.0
    → ((a : A) (w : W) → IsKnown (f a w).0)
    → IsKnown (and_then o f).0
and_then-IsKnown (ok a, w) f h k = k a w
and_then-IsKnown (err (sepp e), w) f h k = tt
and_then-IsKnown (err (type_error name), w) f h k = tt
and_then-IsKnown (err unfit, w) f h k = tt
and_then-IsKnown (err overflow_error, w) f h k = tt
and_then-IsKnown (err _, w) f h k = absurd h

pub of_IsSepp : {W A : Type 0} (o : Result Raised A × W) → IsSepp o → IsKnown o.0
of_IsSepp (ok a, w) h = tt
of_IsSepp (err (sepp e), w) h = tt
of_IsSepp (err _, w) h = absurd h

pub or_unfit : {A : Type 0} (o : Option A) → IsKnown (or_raise o unfit)
or_unfit none = tt
or_unfit (some a) = tt

pub or_sepp : {A : Type 0} (o : Option A) (e : SeppError) → IsKnown (or_raise o (sepp e))
or_sepp none e = tt
or_sepp (some a) e = tt

raise_if-IsKnown : (b : Bool) (e : SeppError) → IsKnown (Common.raise_if b (sepp e))
raise_if-IsKnown true e = tt
raise_if-IsKnown false e = tt

pub traverse-IsKnown :
    {A B : Type 0} (f : A → Result Raised B) (xs : List A)
    → ((a : A) → IsKnown (f a))
    → IsKnown (traverse f xs)
traverse-IsKnown f [] k = tt
traverse-IsKnown f (x ∷ xs) k =
    bind-IsKnown (f x) _ (k x)
      λ y. bind-IsKnown (traverse f xs) _ (traverse-IsKnown f xs k) λ ys. tt

primitive_to_pb-IsKnown : (rt : Runtime) (v : Primitive) → IsKnown (primitive_to_pb rt v)
unfolding primitive_to_pb
primitive_to_pb-IsKnown rt (Primitive.int v) =
    bind-IsKnown (or_raise (rt.int64 v) unfit) _ (or_unfit _) λ n. tt
primitive_to_pb-IsKnown rt _ = tt

set_uint32-IsKnown : (rt : Runtime) (v : Option ℤ) → IsKnown (set_uint32 rt v)
unfolding set_uint32
set_uint32-IsKnown rt none = tt
set_uint32-IsKnown rt (some v) = bind-IsKnown (or_raise (rt.uint32 v) unfit) _ (or_unfit _) λ n. tt

set_text-IsKnown : (rt : Runtime) (s : Option String) → IsKnown (set_text rt s)
unfolding set_text
set_text-IsKnown rt none = tt
set_text-IsKnown rt (some s) = bind-IsKnown (or_raise (rt.text s) unfit) _ (or_unfit _) λ t. tt

texts_to_pb-IsKnown : (rt : Runtime) (texts : List String) → IsKnown (texts_to_pb rt texts)
unfolding texts_to_pb
texts_to_pb-IsKnown rt texts = traverse-IsKnown _ texts λ s. or_unfit (rt.text s)

custom_to_pb-IsKnown :
    (rt : Runtime) (m : Common.Dict PbPrimitiveValue) (items : Common.Dict Primitive)
    → IsKnown (custom_to_pb rt m items)
unfolding custom_to_pb
custom_to_pb-IsKnown rt m [] = tt
custom_to_pb-IsKnown rt m ((key, value) ∷ items) =
    bind-IsKnown (primitive_to_pb rt value) _ (primitive_to_pb-IsKnown rt value)
      λ pv. custom_to_pb-IsKnown rt (Common.put key pv m) items

pub enqueue_request_to_pb-IsKnown :
    (rt : Runtime) (req : EnqueueRequest) → IsKnown (enqueue_request_to_pb rt req)
unfolding enqueue_request_to_pb
enqueue_request_to_pb-IsKnown rt req = bind-IsKnown _ _ (set_uint32-IsKnown rt _) λ priority.
    bind-IsKnown _ _ (set_uint32-IsKnown rt _)
      λ max_attempts. bind-IsKnown _ _ (custom_to_pb-IsKnown rt [] req.custom) λ custom. tt

pub reserve_options_to_pb-IsKnown :
    (rt : Runtime) (opts : ReserveOptions) → IsKnown (reserve_options_to_pb rt opts)
unfolding reserve_options_to_pb
reserve_options_to_pb-IsKnown rt opts =
    bind-IsKnown _ _ (texts_to_pb-IsKnown rt opts.queues) λ queues.
      bind-IsKnown _ _ (set_text-IsKnown rt opts.worker_id)
        λ worker_id. bind-IsKnown _ _ (set_uint32-IsKnown rt opts.max_jobs) λ max_jobs. tt

job_rejection_from_pb-IsKnown :
    (rt : Runtime) (r : PbJobRejection) → IsKnown (job_rejection_from_pb rt r)
unfolding job_rejection_from_pb
job_rejection_from_pb-IsKnown rt (PbJobRejection.scheduled_too_far horizon actual) =
    bind-IsKnown _ _ (or_unfit (rt.to_timedelta horizon))
      λ h. bind-IsKnown _ _ (or_unfit (rt.to_datetime actual)) λ a. tt
job_rejection_from_pb-IsKnown rt _ = tt

rejection_or_unknown-IsKnown :
    (rt : Runtime) (o : Option PbJobRejection) → IsKnown (rejection_or_unknown rt o)
rejection_or_unknown-IsKnown rt none = tt
rejection_or_unknown-IsKnown rt (some r) = job_rejection_from_pb-IsKnown rt r

pub job_validation_error_from_pb-IsKnown :
    (rt : Runtime) (e : PbJobValidationError) → IsKnown (job_validation_error_from_pb rt e)
unfolding job_validation_error_from_pb
job_validation_error_from_pb-IsKnown rt e =
    bind-IsKnown _ _ (rejection_or_unknown-IsKnown rt e.rejection) λ r. tt

pub job_result_from_pb-IsKnown :
    (rt : Runtime) (r : PbJobResult) → IsKnown (job_result_from_pb rt r)
unfolding job_result_from_pb
job_result_from_pb-IsKnown rt (PbJobResult.rejection r) =
    bind-IsKnown _ _ (job_rejection_from_pb-IsKnown rt r) λ x. tt
job_result_from_pb-IsKnown rt _ = tt

pub server_info_from_pb-IsKnown :
    (rt : Runtime) (r : PbServerInfo) → IsKnown (server_info_from_pb rt r)
unfolding server_info_from_pb
server_info_from_pb-IsKnown rt r = ground arith

pub wrap_info-IsKnown : {A : Type 0} (r : Result Raised A) → IsKnown r → IsKnown (wrap_info r)
wrap_info-IsKnown r h = ground (arith, h)

pub reserve_deadline-IsKnown : (wait_timeout : Timedelta) → IsKnown (reserve_deadline wait_timeout)
unfolding reserve_deadline
reserve_deadline-IsKnown wait_timeout = ground arith

present-IsKnown : (o : Option String) → IsKnown (present o)
present-IsKnown none = tt
present-IsKnown (some s) = tt

pub reason_field-IsKnown : (rt : Runtime) (reason : String) → IsKnown (reason_field rt reason)
unfolding reason_field
reason_field-IsKnown rt reason = elim (Bool-cases (is_empty reason)) [
  | inl b ↦ rw (b, reason_field) tt
  | inr b ↦ rw (b, reason_field) (present-IsKnown (rt.text reason))
]
