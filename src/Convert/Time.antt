-- ===== src/Convert/Time.antt =====
-- Instants and milliseconds.
pub mod Millis
use sepp_py.Common.{
  ◌*◌, ℤ, pos, negsuc, ltb_ℤ, leb_ℤ, floor_div, ◌||◌, Option, none, some, if◌then◌else◌,
}
use sepp_py.Types.Time.{Timedelta, Datetime, utc, instant_of, max_instant}
use sepp_py.Wire.WellKnown.{Timestamp}
use sepp_py.Wire.Runtime.{Runtime}

-- `(dt - _EPOCH) // _ONE_MS`, a naive datetime read as UTC.
unfoldable pub datetime_to_millis : Datetime → ℤ
unfolding instant_of
datetime_to_millis dt = floor_div (instant_of dt) 1000

-- `_EPOCH + timedelta(milliseconds=ms)`: it overflows past the year 9999, and the timedelta itself
-- overflows only later, past 999999999 days.
unfoldable pub millis_to_datetime : ℤ → Option Datetime
millis_to_datetime (negsuc n) = none
millis_to_datetime (pos n) =
    if leb_ℤ (pos (n * 1000)) max_instant then some (utc (pos (n * 1000))) else none

-- `datetime_to_millis(datetime.now(timezone.utc))`, at an instant that the clock shows.
unfoldable pub now_millis : ℤ → ℤ
unfolding datetime_to_millis
now_millis clock = datetime_to_millis (utc clock)

unfoldable pub timestamp_to_datetime : Runtime → Timestamp → Option Datetime
timestamp_to_datetime rt ts =
    if ltb_ℤ ts.seconds (pos 0) || ltb_ℤ ts.nanos (pos 0) then none else rt.to_datetime ts

-- `int(td.total_seconds() * 1000)`, through Python's floats.
unfoldable pub timedelta_to_millis :
    {Float : Type 0}
    → (total_seconds : Timedelta → Float) → (times_1000 : Float → Float) → (truncated : Float → ℤ)
    → Timedelta
    → ℤ
timedelta_to_millis total_seconds times_1000 truncated td =
    truncated (times_1000 (total_seconds td))
