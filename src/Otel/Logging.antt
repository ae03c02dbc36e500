-- ===== src/Otel/Logging.antt =====
-- `_SeppLogger`: log calls that are also events of the active span.
use sepp_py.Common.{ℕ, List, ◌∷◌, String, Bool, if◌then◌else◌, ◌&&◌}

-- The levels of `_SEVERITY_NUMBER`; the library logs at the first four.
pub data Level : Type 0 where
  debug info warning error critical : Level

unfoldable pub severity_number : Level → ℕ
severity_number debug = 5
severity_number info = 9
severity_number warning = 13
severity_number error = 17
severity_number critical = 21

-- An event of a span: `log.severity` and `log.message`.
pub record SpanEvent : Type 0 where
  pub severity : ℕ
  pub message : String

-- The two sinks of a log call: the calls of the standard logger, and the events of the active
-- span, each latest first. A span that does not record takes no events.
pub record Sinks : Type 0 where
  pub records : List (Level × String)
  pub is_recording : Bool
  pub events : List SpanEvent

-- `_emit_span_event`, with the text that `msg % args` gives.
unfoldable pub emit_span_event : (otel_available : Bool) → Level → String → Sinks → Sinks
unfolding severity_number
emit_span_event otel_available level formatted s =
    if otel_available && s.is_recording
    then record s {
      events = record { severity = severity_number level; message = formatted } ∷ s.events;
    }
    else s

-- A log call on what `create_sepp_logger` returns: a `_SeppLogger`, or a plain logger.
unfoldable pub log : (otel_available : Bool) → Level → String → Sinks → Sinks
unfolding emit_span_event
log otel_available level formatted s =
    let recorded = record s { records = (level, formatted) ∷ s.records } in
    if otel_available then emit_span_event otel_available level formatted recorded else recorded
