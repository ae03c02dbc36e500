-- ===== src/Client/Retry.antt =====
-- `_with_retry`, `_call_metadata` and the calls of the stub.
pub mod Attempts
pub mod Delays
use sepp_py.Common.{ℕ, zero, suc, ◌-◌, pos_part, ◌∷◌, Result, if◌then◌else◌}
use sepp_py.Types.Time.{Timedelta}
use sepp_py.Errors.Codes.{CodeSet}
use sepp_py.Errors.Exceptions.{rpc_error}
use sepp_py.Client.Env.{Env}
use sepp_py.Client.Monad.{M, ◌>>◌, raise, catch_rpc}
use sepp_py.Client.Policy.{RetryPolicy, World}

-- `await asyncio.sleep(delay)`
abbrev pub sleep : {env : Env} → env.Float → M (World env) (Unit {0})
sleep delay w = (Result.ok tt, record w { sleeps = delay ∷ w.sleeps })

-- The delay before the next attempt: jitter draws a random number.
unfoldable pub pause : (env : Env) → RetryPolicy env.Float → Timedelta → M (World env) (Unit {0})
pause env policy backoff w =
    if policy.jitter
    then sleep {env = env} (env.times (env.total_seconds backoff) (env.jitter_factor w.draws))
        (record w { draws = suc w.draws })
    else sleep {env = env} (env.total_seconds backoff) w

unfoldable pub next_backoff : (env : Env) → RetryPolicy env.Float → Timedelta → Timedelta
next_backoff env policy backoff = env.from_seconds (
    env.min_float (env.times (env.total_seconds backoff) policy.multiplier)
      (env.total_seconds policy.max_backoff))

-- The `while True` loop, with `left` for `policy.max_attempts - attempt`: the test
-- `attempt >= policy.max_attempts` is `left == 0`.
unfoldable pub retry_loop :
    (env : Env) {A : Type 0}
    → RetryPolicy env.Float
    → CodeSet
    → M (World env) A
    → (left : ℕ) → Timedelta
    → M (World env) A
retry_loop env policy codes factory zero backoff = factory
retry_loop env policy codes factory (suc left) backoff = catch_rpc factory λ e.
    if codes e.code
    then (pause env policy backoff
        >> retry_loop env policy codes factory left (next_backoff env policy backoff))
    else raise (rpc_error e)

unfoldable pub with_retry :
    (env : Env) {A : Type 0} → RetryPolicy env.Float → CodeSet → M (World env) A → M (World env) A
unfolding retry_loop
with_retry env policy codes factory =
    retry_loop env policy codes factory (pos_part policy.max_attempts - 1) policy.initial_backoff
