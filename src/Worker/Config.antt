-- ===== src/Worker/Config.antt =====
-- `Worker.__init__`, and the options of each reserve call.
pub mod Capacity
pub mod Build
use Prim.Native.String
use sepp_py.Common.{
  value_or, ℕ, ◌-◌, max, ℤ, pos, pos_part, leb_ℤ, max_ℤ, min_ℤ, Bool, ◌||◌, List, String, Option,
  none, some, is_empty, is_some, Result, ok, ◌>>=◌, ◌>>◌, raise_if, if◌then◌else◌,
}
use mathlib.Core.Option
use sepp_py.Types.Time.{Timedelta, milliseconds}
use sepp_py.Types.Faults.{ValueError, wait_timeout_too_short}
use sepp_py.Types.Requests.{ReserveOptions, make_reserve_options, default_wait_timeout}

-- `socket.gethostname() or "unknown"`, and "unknown" where that raises an OSError.
abbrev pub host_of : Option String → String
host_of none = "unknown"
host_of (some name) = if is_empty name then "unknown" else name

-- `_default_worker_id`, from the host name, the process id in digits and eight random digits.
unfoldable pub default_worker_id : Option String → (pid digits : String) → String
default_worker_id host pid digits =
    String.◌++◌ (host_of host) (String.◌++◌ "-" (String.◌++◌ pid (String.◌++◌ "-" digits)))

-- `default_id` is what `_default_worker_id()` returns.
pub record WorkerArgs : Type 0 where
  pub queues : List String
  pub lease_duration : Timedelta
  pub wait_timeout : Option Timedelta
  pub max_jobs : Option ℤ
  pub max_in_flight : ℤ
  pub reserve_error_backoff : Timedelta
  pub auto_extend : Bool
  pub auto_extend_interval : Option Timedelta
  pub worker_id : Option String
  pub default_id : String

pub record AutoExtend : Type 0 where
  pub explicit_interval : Option Timedelta
  pub extend_by : Timedelta

-- The fields that `__init__` sets and nothing changes. `max_in_flight` is at least 1.
pub record Config : Type 0 where
  pub opts : ReserveOptions
  pub max_in_flight : ℕ
  pub reserve_error_backoff : Timedelta
  pub auto_extend : Option AutoExtend

abbrev pub not_positive : Option Timedelta → Bool
not_positive none = Bool.false
not_positive (some t) = leb_ℤ t (pos 0)

unfoldable pub auto_extend_of : WorkerArgs → Option AutoExtend
auto_extend_of a =
    if a.auto_extend || is_some a.auto_extend_interval
    then some (record {
      explicit_interval = Option.map (λ t. max_ℤ t (milliseconds 1)) a.auto_extend_interval;
      extend_by = a.lease_duration;
    })
    else none

-- `self._opts`, before its checks.
abbrev pub asked : WorkerArgs → ReserveOptions
asked a = record {
  queues = a.queues;
  lease_duration = a.lease_duration;
  wait_timeout = value_or default_wait_timeout a.wait_timeout;
  worker_id = some (value_or a.default_id a.worker_id);
  max_jobs = a.max_jobs;
}

unfoldable pub built : WorkerArgs → ReserveOptions → Config
unfolding auto_extend_of
built a opts = record {
  opts = opts;
  max_in_flight = pos_part (max_ℤ (pos 1) a.max_in_flight);
  reserve_error_backoff = a.reserve_error_backoff;
  auto_extend = auto_extend_of a;
}

unfoldable pub make_worker : WorkerArgs → Result ValueError Config
unfolding built
make_worker a = do
  raise_if (not_positive a.wait_timeout) wait_timeout_too_short
  opts ← make_reserve_options (asked a)
  ok (built a opts)

abbrev pub capacity : Config → ℕ → ℕ
capacity c in_flight = max 1 (c.max_in_flight - in_flight)

-- `min(self._opts.max_jobs, capacity)`, or the capacity where no maximum is set.
abbrev pub capped : Option ℤ → ℤ → ℤ
capped none n = n
capped (some m) n = min_ℤ m n

-- `_reserve_opts_with_capacity`; `dataclasses.replace` runs the checks of `ReserveOptions` again.
unfoldable pub reserve_opts_with_capacity : Config → ℕ → Result ValueError ReserveOptions
reserve_opts_with_capacity c in_flight =
    make_reserve_options
      (record c.opts { max_jobs = some (capped c.opts.max_jobs (pos (capacity c in_flight))) })
