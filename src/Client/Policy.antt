-- ===== src/Client/Policy.antt =====
-- `RetryPolicy`, `RetryDirective`, the configured client, and the world that its coroutines change.
use sepp_py.Common.{ℕ, ℤ, pos, max_ℤ, Bool, List, String, Option, none, some}
use sepp_py.Types.Time.{Timedelta}
use sepp_py.Client.Env.{Env, Metadata}

pub record RetryPolicy (Float : Type 0) : Type 0 where
  pub max_attempts : ℤ
  pub initial_backoff : Timedelta
  pub max_backoff : Timedelta
  pub multiplier : Float
  pub jitter : Bool

-- `RetryPolicy.__post_init__`, with `max(1.0, x)` on floats as a parameter.
unfoldable pub make_retry_policy :
    {Float : Type 0} → (Float → Float) → RetryPolicy Float → RetryPolicy Float
make_retry_policy at_least_one p = record p {
  max_attempts = max_ℤ (pos 1) p.max_attempts;
  multiplier = at_least_one p.multiplier;
}

pub record RetryDirective : Type 0 where
  pub kind : String
  pub delay : Option Timedelta

abbrev pub default : RetryDirective
default = record { kind = "default"; delay = none }

abbrev pub after : Timedelta → RetryDirective
after delay = record { kind = "after"; delay = some delay }

abbrev pub dead_letter : RetryDirective
dead_letter = record { kind = "dead_letter"; delay = none }

-- `SeppClient`, less its channel.
pub record Client (env : Env) : Type 0 where
  pub retry_policy : RetryPolicy env.Float
  pub auth_metadata : Metadata
  pub rpc_timeout : env.Float

-- `sleeps` lists the delays slept so far, the latest first; `draws` counts random numbers.
pub record World (env : Env) : Type 0 where
  pub server : env.Server
  pub sleeps : List env.Float
  pub draws : ℕ
