-- ===== src/Convert/Schedule.antt =====
-- `scheduled_at` on its way to the server and back.
use sepp_py.Common.{pos, ◌≤ℤ◌, ◌<ℤ◌, none, some, ◌≡◌, ◌↔◌, arith}
use sepp_py.Types.Time.{Datetime, utc, instant_of, max_instant}
use sepp_py.Wire.Runtime.{Runtime, IsLawful}
use sepp_py.Convert.Time.{datetime_to_millis, timestamp_to_datetime}
use sepp_py.Convert.Outgoing.{scheduled_at_to_pb}
use sepp_py.Convert.Incoming.{scheduled_at_from_pb}

-- A scheduled instant from the epoch to the end of the year 9999 comes back as the same instant
-- in UTC, whatever the offset it was given with.
scheduled_at_from_pb-scheduled_at_to_pb :
    (rt : Runtime) (d : Datetime)
    → IsLawful rt
    → pos 0 ≤ℤ instant_of d
    → instant_of d ≤ℤ max_instant
    → scheduled_at_from_pb rt (scheduled_at_to_pb rt (some d)) ≡ some (utc (instant_of d))
unfolding scheduled_at_to_pb scheduled_at_from_pb datetime_to_millis timestamp_to_datetime
scheduled_at_from_pb-scheduled_at_to_pb rt d law low high =
    ground (arith, law.from_datetime_sign d low, law.to-from_datetime d low high)

-- A schedule is left out of the message exactly if its instant is before the epoch.
scheduled_at_to_pb_iff :
    (rt : Runtime) (d : Datetime)
    → (scheduled_at_to_pb rt (some d) ≡ none) ↔ (instant_of d <ℤ pos 0)
unfolding scheduled_at_to_pb datetime_to_millis
scheduled_at_to_pb_iff rt d = ground arith
