-- ===== src/Convert/Rejection.antt =====
-- Acknowledgements and rejections in enqueue responses.
use sepp_py.Common.{Option, none, some, Result, ok, ◌>>=◌, or_raise}
use sepp_py.Types.Requests.{EnqueueAck}
use sepp_py.Wire.Messages.{PbJobRejection, PbJobValidationError, PbEnqueueResponse}
use sepp_py.Wire.Runtime.{Runtime}
use sepp_py.Errors.Rejection.{JobRejection, JobValidationError, unknown_rejection}
use sepp_py.Errors.Exceptions.{Raised, unfit}

unfoldable pub enqueue_ack_from_pb : PbEnqueueResponse → EnqueueAck
enqueue_ack_from_pb r = record { job_id = r.job_id; deduplicated = r.deduplicated }

unfoldable pub job_rejection_from_pb : Runtime → PbJobRejection → Result Raised JobRejection
job_rejection_from_pb rt PbJobRejection.unset = ok unknown_rejection
job_rejection_from_pb rt (PbJobRejection.unknown_queue queue) =
    ok (JobRejection.unknown_queue queue)
job_rejection_from_pb rt (PbJobRejection.payload_too_large limit actual) =
    ok (JobRejection.payload_too_large limit actual)
job_rejection_from_pb rt (PbJobRejection.encoding_not_allowed encoding allowed) =
    ok (JobRejection.encoding_not_allowed encoding allowed)
job_rejection_from_pb rt (PbJobRejection.job_type_not_allowed job_type allowed) =
    ok (JobRejection.job_type_not_allowed job_type allowed)
job_rejection_from_pb rt (PbJobRejection.custom_entries_too_many limit actual) =
    ok (JobRejection.custom_entries_too_many limit actual)
job_rejection_from_pb rt (PbJobRejection.custom_map_too_large limit actual) =
    ok (JobRejection.custom_map_too_large limit actual)
job_rejection_from_pb rt (PbJobRejection.custom_key_too_long key limit actual) =
    ok (JobRejection.custom_key_too_long key limit actual)
job_rejection_from_pb rt (PbJobRejection.queue_name_too_long limit actual) =
    ok (JobRejection.queue_name_too_long limit actual)
job_rejection_from_pb rt (PbJobRejection.job_type_name_too_long limit actual) =
    ok (JobRejection.job_type_name_too_long limit actual)
job_rejection_from_pb rt (PbJobRejection.idempotency_key_too_long limit actual) =
    ok (JobRejection.idempotency_key_too_long limit actual)
job_rejection_from_pb rt (PbJobRejection.scheduled_too_far horizon actual) = do
  h ← or_raise (rt.to_timedelta horizon) unfit
  a ← or_raise (rt.to_datetime actual) unfit
  ok (JobRejection.scheduled_too_far h a)
job_rejection_from_pb rt (PbJobRejection.invalid_request message) =
    ok (JobRejection.invalid_request message)
job_rejection_from_pb rt (PbJobRejection.queue_full queue limit) =
    ok (JobRejection.queue_full queue limit)
job_rejection_from_pb rt (PbJobRejection.queue_closing queue) =
    ok (JobRejection.queue_closing queue)

abbrev pub rejection_or_unknown : Runtime → Option PbJobRejection → Result Raised JobRejection
rejection_or_unknown rt none = ok unknown_rejection
rejection_or_unknown rt (some r) = job_rejection_from_pb rt r

unfoldable pub job_validation_error_from_pb :
    Runtime → PbJobValidationError → Result Raised JobValidationError
unfolding job_rejection_from_pb
job_validation_error_from_pb rt e = do
  rejection ← rejection_or_unknown rt e.rejection
  ok (record { index = e.index; rejection = rejection })
