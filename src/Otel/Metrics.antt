-- ===== src/Otel/Metrics.antt =====
-- `WorkerMetrics`: the instruments of a worker.
use sepp_py.Common.{ℕ, suc, ℤ, pos, ◌+ℤ◌, Bool, if◌then◌else◌}

-- The values of the instruments; a counter with an attribute is one number for each value of it.
pub record Counts : Type 0 where
  pub processed : ℕ
  pub nacked_retry : ℕ
  pub nacked_dead_letter : ℕ
  pub in_flight : ℤ
  pub reserves_some : ℕ
  pub reserves_empty : ℕ
  pub reserves_failed : ℕ

-- Without OpenTelemetry there are no instruments and `enabled` is false: nothing is counted.
pub record WorkerMetrics : Type 0 where
  pub enabled : Bool
  pub counts : Counts

abbrev pub make_metrics : (otel_available : Bool) → WorkerMetrics
make_metrics otel_available = record {
  enabled = otel_available;
  counts = record {
    processed = 0;
    nacked_retry = 0;
    nacked_dead_letter = 0;
    in_flight = pos 0;
    reserves_some = 0;
    reserves_empty = 0;
    reserves_failed = 0;
  };
}

abbrev pub when_enabled : (Counts → Counts) → WorkerMetrics → WorkerMetrics
when_enabled f m = if m.enabled then record m { counts = f m.counts } else m

unfoldable pub record_processed : WorkerMetrics → WorkerMetrics
record_processed = when_enabled (λ c. record c { processed = suc c.processed })

unfoldable pub record_nacked : (dead_lettered : Bool) → WorkerMetrics → WorkerMetrics
record_nacked dead_lettered = when_enabled (λ c.
    if dead_lettered
    then record c { nacked_dead_letter = suc c.nacked_dead_letter }
    else record c { nacked_retry = suc c.nacked_retry })

unfoldable pub record_in_flight_delta : (delta : ℤ) → WorkerMetrics → WorkerMetrics
record_in_flight_delta delta = when_enabled (λ c. record c { in_flight = c.in_flight +ℤ delta })

unfoldable pub record_reserve_ok : (empty : Bool) → WorkerMetrics → WorkerMetrics
record_reserve_ok empty = when_enabled (λ c.
    if empty
    then record c { reserves_empty = suc c.reserves_empty }
    else record c { reserves_some = suc c.reserves_some })

unfoldable pub record_reserve_failed : WorkerMetrics → WorkerMetrics
record_reserve_failed = when_enabled (λ c. record c { reserves_failed = suc c.reserves_failed })
