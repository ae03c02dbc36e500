-- ===== src/Convert/Info.antt =====
-- The server-info response.
use sepp_py.Common.{is_empty, Result, ok, ◌>>=◌, ◌>>◌, raise_if, or_raise}
use sepp_py.Types.Requests.{ServerInfo}
use sepp_py.Wire.Messages.{PbServerInfo}
use sepp_py.Wire.Runtime.{Runtime}
use sepp_py.Errors.Exceptions.{
  Raised, sepp, unfit, server_info_error, missing_server_version, server_time_not_representable,
}
use sepp_py.Convert.Time.{timestamp_to_datetime}

unfoldable pub server_info_from_pb : Runtime → PbServerInfo → Result Raised ServerInfo
server_info_from_pb rt r = do
  raise_if (is_empty r.server_version) (sepp (server_info_error missing_server_version))
  server_time ←
      or_raise (timestamp_to_datetime rt r.server_time)
        (sepp (server_info_error (server_time_not_representable r.server_time)))
  max_schedule_horizon ← or_raise (rt.to_timedelta r.max_schedule_horizon) unfit
  max_wait_timeout ← or_raise (rt.to_timedelta r.max_wait_timeout) unfit
  max_lease_duration ← or_raise (rt.to_timedelta r.max_lease_duration) unfit
  ok (record {
    version = r.server_version;
    supported_protocol_versions = r.supported_protocol_versions;
    server_time = server_time;
    restricts_encodings = r.restricts_encodings;
    allowed_encodings = r.allowed_encodings;
    max_payload_bytes = r.max_payload_bytes;
    max_custom_entries = r.max_custom_entries;
    max_custom_total_bytes = r.max_custom_total_bytes;
    max_custom_key_bytes = r.max_custom_key_bytes;
    max_queue_name_bytes = r.max_queue_name_bytes;
    max_job_type_bytes = r.max_job_type_bytes;
    max_idempotency_key_bytes = r.max_idempotency_key_bytes;
    max_schedule_horizon = max_schedule_horizon;
    max_enqueue_batch = r.max_enqueue_batch;
    max_reserve_batch = r.max_reserve_batch;
    max_reserve_queues = r.max_reserve_queues;
    max_wait_timeout = max_wait_timeout;
    max_lease_duration = max_lease_duration;
    strict_queues = r.strict_queues;
    dead_letter_retention_enabled = r.dead_letter_retention_enabled;
  })
