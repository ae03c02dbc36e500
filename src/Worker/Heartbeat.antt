-- ===== src/Worker/Heartbeat.antt =====
-- `_heartbeat`: extend the lease of a running job, and abort its handler when the lease is lost.
pub mod Deadline
use sepp_py.Common.{
  ℕ, suc, ◌+◌, ◌-◌, ◌*◌, ◌/◌, ◌%◌, ℤ, pos, negsuc, pos_part, ◌+ℤ◌, ◌-ℤ◌, max_ℤ, leb_ℤ, ltb, ◌==◌,
  Bool, ◌&&◌, ◌||◌, List, [], ◌∷◌, none, some, Result, ok, err, if◌then◌else◌,
}
use sepp_py.Types.Time.{Timedelta, Datetime, milliseconds}
use sepp_py.Types.Jobs.{Lease}
use sepp_py.Errors.Exceptions.{Raised, sepp, lease_error}
use sepp_py.Convert.Time.{now_millis}
use sepp_py.Worker.Config.{AutoExtend}
use sepp_py.Worker.Client.{QueueClient}

-- Python's `timedelta / k` for `k > 0`: the nearest microsecond, a tie to the even one. `q` and
-- `r` are the quotient and the remainder of the division that rounds down.
abbrev pub is_odd : ℤ → Bool
is_odd (pos n) = n % 2 == 1
is_odd (negsuc n) = n % 2 == 0

abbrev pub one_up : ℤ → ℤ
one_up (pos n) = pos (n + 1)
one_up (negsuc ℕ.zero) = pos 0
one_up (negsuc (suc n)) = negsuc n

abbrev pub rounded : ℤ → ℕ → ℕ → ℤ
rounded q r k = if ltb k (2 * r) || (2 * r == k && is_odd q) then one_up q else q

unfoldable pub div_round : Timedelta → ℕ → Timedelta
div_round (pos n) k = rounded (pos (n / k)) (n % k) k
div_round (negsuc n) k = rounded (negsuc (n / k)) (k - 1 - n % k) k

unfoldable pub heartbeat_interval : Timedelta → Timedelta
unfolding div_round
heartbeat_interval lease = max_ℤ (div_round lease 3) (milliseconds 1)

-- The pause before a beat, with the clock's reading at the start of the round.
unfoldable pub beat_interval : AutoExtend → Lease → ℤ → Timedelta
unfolding heartbeat_interval now_millis
beat_interval cfg lease clock = elim cfg.explicit_interval [
  | some interval ↦ interval
  | none ↦
      heartbeat_interval
        (milliseconds (pos_part (max_ℤ (pos 0) (lease.known_expiry_ms -ℤ now_millis clock))))
]

-- Where the heartbeat stands after some rounds: still beating, ended with `lease_lost[0] = True`
-- and the handler cancelled, or ended by an exception that is no `SeppError`.
pub data Pulse : Type 0 where
  beating : Lease → Pulse
  lost : Pulse
  died : Raised → Pulse

-- What one call of `lease.extend` leads to; `clock` is read after the call.
unfoldable pub after_extend : Lease → ℤ → Result Raised (Datetime × Lease) → Pulse
unfolding now_millis
after_extend lease clock (ok (expiry, lease')) = beating lease'
after_extend lease clock (err (sepp (lease_error e))) = lost
after_extend lease clock (err (sepp e)) =
    if leb_ℤ lease.known_expiry_ms (now_millis clock) then lost else beating lease
after_extend lease clock (err r) = died r

-- The `while True` loop from an instant that the clock shows. Each round sleeps for its interval
-- and calls `extend`; the list holds, for each round that the handler's run leaves time for, the
-- microseconds that sleep and call took beyond the interval. Then the heartbeat is cancelled.
unfoldable pub heartbeat :
    {W : Type 0} → QueueClient W → AutoExtend → List ℕ → ℤ → Pulse → W → Pulse × W
heartbeat qc cfg [] clock pulse w = (pulse, w)
heartbeat qc cfg (late ∷ lates) clock lost w = (lost, w)
heartbeat qc cfg (late ∷ lates) clock (died r) w = (died r, w)
heartbeat qc cfg (late ∷ lates) clock (beating lease) w =
    let (r, w') = qc.extend_lease lease cfg.extend_by w in
    let clock' = clock +ℤ beat_interval cfg lease clock +ℤ pos late in
    heartbeat qc cfg lates clock' (after_extend lease clock' r) w'
