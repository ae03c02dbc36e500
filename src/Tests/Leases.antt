-- ===== src/Tests/Leases.antt =====
-- A lease that is extended.
use sepp_py.Common.{◌-ℤ◌, pos, [], ◌∷◌, none, some, ok, ◌≡◌, refl}
use sepp_py.Types.Time.{Datetime, seconds, utc}
use sepp_py.Types.Jobs.{Lease, JobCtx}
use sepp_py.Errors.Codes.{unavailable, retryable_codes}
use sepp_py.Convert.Time.{timestamp_to_datetime, datetime_to_millis}
use sepp_py.Client.Policy.{World}
use sepp_py.Client.Retry.{pause, with_retry}
use sepp_py.Client.Trace.{call}
use sepp_py.Client.Lease.{extend_inner, extend, lease_extend, ctx_extend}
use sepp_py.Client.Lease.Known.{ctx_extend-extend}
use sepp_py.Tests.Reference.{scripted, client, world}

abbrev lease : Lease
lease = record { job_id = "job-1"; attempt = 1; worker_id = none; known_expiry_ms = pos 60000 }

abbrev ctx_of : Lease → JobCtx
ctx_of l = record {
  id = "job-1";
  queue = "emails";
  job_type = "send_welcome";
  priority = record { value = pos 5 };
  attempt = 1;
  max_attempts = 3;
  enqueued_at = utc (pos 0);
  custom = [];
  trace_context = none;
  lease_expires_at = utc (pos 60000000);
  scheduled_at = none;
  lease = some l;
}

abbrev extended : Lease
extended = record {
  job_id = "job-1";
  attempt = 1;
  worker_id = none;
  known_expiry_ms = pos 1600000060000;
}

abbrev expiry : Datetime
expiry = utc (pos 1600000060000000)

-- The first call fails.
abbrev rested : World scripted
rested = record { server = []; sleeps = 10000 ∷ []; draws = 0 }

extended_run :
    ctx_extend scripted client (ctx_of lease) (seconds 60) (world (unavailable ∷ []))
    ≡ (ok (expiry, ctx_of extended), rested)
unfolding ctx_extend lease_extend extend_inner with_retry call pause retryable_codes
    timestamp_to_datetime datetime_to_millis ◌-ℤ◌
extended_run = refl

ctx_extend-extend_example :
    (extend scripted client (ctx_of lease) (seconds 60) (world (unavailable ∷ []))
      ≡ (ok expiry, rested))
    × (ctx_of extended ≡ ctx_of (record lease { known_expiry_ms = datetime_to_millis expiry }))
ctx_extend-extend_example =
    ctx_extend-extend scripted client (ctx_of lease) (ctx_of extended) lease (seconds 60)
      (world (unavailable ∷ [])) rested expiry refl refl refl extended_run
