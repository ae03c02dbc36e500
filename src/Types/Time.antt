-- ===== src/Types/Time.antt =====
-- Python's datetime and timedelta, as the client uses them.
use sepp_py.Common.{ℕ, ◌*◌, ℤ, pos, ◌-ℤ◌, Option, none, some}

-- A timedelta is its number of microseconds, as in the standard library's integer arithmetic.
abbrev pub Timedelta : Type 0
Timedelta = ℤ

abbrev pub milliseconds : ℕ → Timedelta
milliseconds n = pos (n * 1000)

abbrev pub seconds : ℕ → Timedelta
seconds n = pos (n * 1000000)

-- `timedelta.max`
abbrev pub max_timedelta : Timedelta
max_timedelta = pos 86399999999999999999

-- `wall` counts microseconds of the clock reading from 1970-01-01 00:00; `tzinfo` is the offset
-- from UTC in microseconds, `none` for a naive datetime.
pub record Datetime : Type 0 where
  pub wall : ℤ
  pub tzinfo : Option Timedelta

abbrev pub utc : ℤ → Datetime
utc t = record { wall = t; tzinfo = some (pos 0) }

-- The offset of an aware datetime; a naive one is read as UTC.
abbrev pub offset : Option Timedelta → Timedelta
offset none = pos 0
offset (some o) = o

-- The instant that a datetime names, in microseconds since the epoch.
unfoldable pub instant_of : Datetime → ℤ
instant_of d = d.wall -ℤ offset d.tzinfo

-- The last microsecond of the year 9999, `datetime.max` in UTC.
abbrev pub max_instant : ℤ
max_instant = pos 253402300799999999
