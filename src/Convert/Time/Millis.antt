-- ===== src/Convert/Time/Millis.antt =====
-- Milliseconds since the epoch against datetimes.
use sepp_py.Common.{
  ◌+◌, ◌*◌, ℤ, pos, negsuc, ◌+ℤ◌, ◌-ℤ◌, ◌≤ℤ◌, ◌<ℤ◌, floor_div, none, some, ◌≡◌, ◌≢◌, ◌↔◌, arith,
}
use sepp_py.Types.Time.{Datetime, instant_of}
use sepp_py.Convert.Time.{datetime_to_millis, millis_to_datetime}

-- A number of milliseconds in microseconds.
abbrev pub thousand : ℤ → ℤ
thousand (pos n) = pos (n * 1000)
thousand (negsuc n) = negsuc (n * 1000 + 999)

floor_div_bounds :
    (i : ℤ) → (thousand (floor_div i 1000) ≤ℤ i) × (i <ℤ thousand (floor_div i 1000) +ℤ pos 1000)
unfolding ◌+ℤ◌
floor_div_bounds (pos n) = ground arith
floor_div_bounds (negsuc n) = ground arith

-- `datetime_to_millis` rounds the instant down, before the epoch too.
datetime_to_millis_bounds :
    (d : Datetime)
    → (thousand (datetime_to_millis d) ≤ℤ instant_of d)
      × (instant_of d <ℤ thousand (datetime_to_millis d) +ℤ pos 1000)
unfolding datetime_to_millis
datetime_to_millis_bounds d = floor_div_bounds (instant_of d)

-- The last millisecond that a datetime can name.
abbrev pub max_millis : ℤ
max_millis = pos 253402300799999

-- `millis_to_datetime` succeeds exactly from the epoch to the last millisecond of the year 9999.
millis_to_datetime_iff :
    (ms : ℤ) → (millis_to_datetime ms ≢ none) ↔ ((pos 0 ≤ℤ ms) × (ms ≤ℤ max_millis))
unfolding millis_to_datetime
millis_to_datetime_iff (pos n) = ground arith
millis_to_datetime_iff (negsuc n) = ground arith

-- Where `millis_to_datetime` gives a datetime, `datetime_to_millis` gives the number back.
datetime_to_millis-millis_to_datetime :
    (ms : ℤ) (d : Datetime) → millis_to_datetime ms ≡ some d → datetime_to_millis d ≡ ms
unfolding millis_to_datetime datetime_to_millis instant_of ◌-ℤ◌
datetime_to_millis-millis_to_datetime (pos n) d h = ground arith
datetime_to_millis-millis_to_datetime (negsuc n) d h = ground arith
