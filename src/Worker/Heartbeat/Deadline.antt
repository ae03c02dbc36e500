-- ===== src/Worker/Heartbeat/Deadline.antt =====
-- When the heartbeat beats.
use sepp_py.Common.{
  ℕ, ◌+◌, ◌-◌, ◌*◌, ◌/◌, ◌<◌, ◌≤◌, ℤ, pos, negsuc, ◌+ℤ◌, ◌-ℤ◌, ◌<ℤ◌, ◌≤ℤ◌, +ℤ_parts, floor_div,
  max_ℤ, pos_part, neg_part, arith, ◌≡◌, none,
}
use sepp_py.Types.Time.{milliseconds, instant_of}
use sepp_py.Convert.Time.{now_millis, datetime_to_millis}
use sepp_py.Worker.Heartbeat.{div_round, heartbeat_interval, beat_interval}
use sepp_py.Worker.Config.{AutoExtend}
use sepp_py.Types.Jobs.{Lease}

-- A third of a duration of at least two milliseconds is a millisecond short of it.
heartbeat_interval_bound :
    (ms : ℕ)
    → 2 ≤ ms
    → (pos_part (heartbeat_interval (milliseconds ms)) ≤ (ms - 1) * 1000)
      × (neg_part (heartbeat_interval (milliseconds ms)) ≡ 0)
unfolding heartbeat_interval div_round
heartbeat_interval_bound ms h = ground arith

late_bound :
    (clock k expiry : ℕ)
    → clock / 1000 + 2 ≤ expiry
    → k ≤ (expiry - clock / 1000 - 1) * 1000
    → (clock + k) / 1000 < expiry
late_bound clock k expiry h b = omega arith

instant_eq : (clock k : ℕ) → pos clock +ℤ pos k -ℤ pos 0 ≡ pos (clock + k)
unfolding ◌+ℤ◌ ◌-ℤ◌
instant_eq clock k = ground arith

now_eq : (clock : ℕ) → now_millis (pos clock) ≡ pos (clock / 1000)
unfolding now_millis datetime_to_millis instant_of ◌-ℤ◌
now_eq clock = ground arith

late_bound_ℤ :
    (clock expiry : ℕ) (k : ℤ)
    → clock / 1000 + 2 ≤ expiry
    → pos_part k ≤ (expiry - clock / 1000 - 1) * 1000
    → neg_part k ≡ 0
    → floor_div (pos clock +ℤ k -ℤ pos 0) 1000 <ℤ pos expiry
late_bound_ℤ clock expiry (pos k) b h n =
    rw (instant_eq clock k) (ground (arith, late_bound clock k expiry b h))
late_bound_ℤ clock expiry (negsuc k) b h n = ground (arith, n)

remaining : (now expiry : ℕ) → pos_part (max_ℤ (pos 0) (pos expiry -ℤ pos now)) ≡ expiry - now
unfolding ◌-ℤ◌
remaining now expiry = ground arith

beat_before :
    (clock : ℕ) (expiry : ℤ)
    → pos (clock / 1000) +ℤ pos 2 ≤ℤ expiry
    → floor_div
        (pos clock
          +ℤ heartbeat_interval
              (milliseconds (pos_part (max_ℤ (pos 0) (expiry -ℤ pos (clock / 1000)))))
          -ℤ pos 0)
        1000
      <ℤ expiry
beat_before clock (pos k) room =
    let near : clock / 1000 + 2 ≤ k = ground (arith, room, +ℤ_parts (pos (clock / 1000)) (pos 2)) in
    let bound = heartbeat_interval_bound (k - clock / 1000) (omega arith) in
    rw (remaining (clock / 1000) k) (late_bound_ℤ clock k _ near bound.0 bound.1)
beat_before clock (negsuc k) room = ground (arith, room, +ℤ_parts (pos (clock / 1000)) (pos 2))

-- A heartbeat without an explicit interval that starts to wait at a time from the epoch on, on a
-- lease with at least two milliseconds left, waits until a time short of the lease's expiry.
pub beat_interval_deadline :
    (cfg : AutoExtend) (lease : Lease) (clock : ℕ)
    → cfg.explicit_interval ≡ none
    → now_millis (pos clock) +ℤ pos 2 ≤ℤ lease.known_expiry_ms
    → now_millis (pos clock +ℤ beat_interval cfg lease (pos clock)) <ℤ lease.known_expiry_ms
unfolding beat_interval now_millis datetime_to_millis instant_of
beat_interval_deadline cfg lease clock h room =
    rw (h, beat_interval, now_eq clock)
      (beat_before clock lease.known_expiry_ms (rw (now_eq clock) at room))
