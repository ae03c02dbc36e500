-- ===== src/Client/Connect/Session.antt =====
-- `SeppClient.__init__`, `connect` with the channel that it makes, `from_channel`, `close` and the
-- context manager.
use sepp_py.Common.{
  String, is_empty, if◌then◌else◌, true, pos, [], Option, none, some, value_or, Result, ok, err,
  ◌≡◌, ◌≢◌, ◌⊎◌, inl, inr, refl, Result-cases, arith,
}
use sepp_py.Types.Time.{Timedelta, milliseconds, seconds}
use sepp_py.Errors.Exceptions.{
  Raised, sepp, client_error, base_exception, ClientError, connect_error,
}
use sepp_py.Client.Env.{Env, Metadata}
use sepp_py.Client.Monad.{M, ◌>>=◌, ◌>>◌, return, raise, lift}
use sepp_py.Client.Policy.{RetryPolicy, Client, World}
use sepp_py.Client.Connect.{ConnectArgs, Plan, plan}

pub data Channel : Type 0 where
  opened closed : Channel

-- `RetryPolicy()`, with the float 2.0 as a parameter.
abbrev pub default_policy : {Float : Type 0} → Float → RetryPolicy Float
default_policy two = record {
  max_attempts = pos 1;
  initial_backoff = milliseconds 100;
  max_backoff = seconds 10;
  multiplier = two;
  jitter = true;
}

-- The channel that `connect` has made so far.
abbrev pub Opening : Type 0 → Type 0
Opening = M (Option Channel)

abbrev pub open_channel : Opening (Unit {0})
open_channel made = (ok tt, some opened)

abbrev pub close_made : Option Channel → Option Channel
close_made none = none
close_made (some channel) = some closed

-- `await channel.close()`
abbrev pub close_channel : Opening (Unit {0})
close_channel made = (ok tt, close_made made)

abbrev pub plan_or_raise : Result ClientError Plan → Result Raised Plan
plan_or_raise (err e) = err (sepp (client_error e))
plan_or_raise (ok p) = ok p

-- How the wait for the channel ends; `interrupted` is a cancellation, or anything else that is not
-- caught.
pub data Readiness : Type 0 where
  ready timed_out interrupted : Readiness
  failed : (details : Option String) → Readiness

-- `reason or "connection failed"`
abbrev pub reason_of : Option String → String
reason_of none = "connection failed"
reason_of (some s) = if is_empty s then "connection failed" else s

-- The `try` around the wait: it closes the channel after a timeout and after an error of gRPC.
unfoldable pub await_ready : ConnectArgs → Readiness → Opening (Unit {0})
await_ready a ready = return tt
await_ready a interrupted = raise base_exception
await_ready a timed_out =
    close_channel >> raise (sepp (client_error (connect_error a.addr "timed out")))
await_ready a (failed details) =
    close_channel >> raise (sepp (client_error (connect_error a.addr (reason_of details))))

module _ (env : Env) (two : env.Float) where
  -- `SeppClient.__init__`
  unfoldable pub make_client :
      Option (RetryPolicy env.Float) → Metadata → (rpc_timeout : Timedelta) → Client env
  make_client retry_policy auth_metadata rpc_timeout = record {
    retry_policy = value_or (default_policy two) retry_policy;
    auth_metadata = auth_metadata;
    rpc_timeout = env.total_seconds rpc_timeout;
  }

  -- `SeppClient.connect`, as a whole.
  unfoldable pub connect_client :
      ConnectArgs → Option (RetryPolicy env.Float) → Timedelta → Readiness → Opening (Client env)
  unfolding await_ready
  connect_client a retry_policy rpc_timeout readiness = do
    p ← lift (plan_or_raise (plan a))
    open_channel
    await_ready a readiness
    return (make_client retry_policy p.auth_metadata rpc_timeout)

  -- `SeppClient.from_channel`
  unfoldable pub from_channel : Option (RetryPolicy env.Float) → Timedelta → Client env
  unfolding make_client
  from_channel retry_policy rpc_timeout = make_client retry_policy [] rpc_timeout

-- `SeppClient.close`, also by `__aexit__`.
abbrev pub close : Channel → Channel
close channel = closed

-- `async with client: …` on a client with this channel: the body runs, then the channel is closed,
-- whether the body returned or raised.
unfoldable pub with_client :
    {env : Env} {A : Type 0}
    → Client env
    → (Client env → M (World env) A)
    → Channel × World env
    → Result Raised A × Channel × World env
with_client client body (channel, w) = let (r, w') = body client w in (r, close channel, w')

-- `connect` does one of three things. It returns a client, with the key's metadata of the plan,
-- exactly when there is a plan and the channel is ready, and the channel is open. It raises an error
-- of the library, and then no channel is open, and none was made if there is no plan. Or the wait
-- was cancelled: then it raises the cancellation, and the channel that it made stays open.
pub connect_client-cases :
    (env : Env) (two : env.Float) (a : ConnectArgs) (retry_policy : Option (RetryPolicy env.Float))
    (rpc_timeout : Timedelta) (readiness : Readiness)
    → ((p : Plan) × (plan a ≡ ok p)
        × (readiness ≡ ready)
        × (connect_client env two a retry_policy rpc_timeout readiness none
            ≡ (ok (make_client env two retry_policy p.auth_metadata rpc_timeout), some opened)))
      ⊎ ((e : ClientError) × (made : Option Channel) × (connect_client env two a retry_policy
              rpc_timeout readiness none
            ≡ (err (sepp (client_error e)), made))
          × (((plan a ≡ err e) × (made ≡ none)) ⊎ ((readiness ≢ ready) × (made ≡ some closed))))
      ⊎ ((readiness ≡ interrupted)
          × (connect_client env two a retry_policy rpc_timeout readiness none
              ≡ (err base_exception, some opened)))
unfolding connect_client await_ready
connect_client-cases env two a retry_policy rpc_timeout ready = elim (Result-cases (plan a)) [
  | inr (e, h) ↦ inr (inl (e, none, rw (h, connect_client) refl, inl (h, refl)))
  | inl (p, h) ↦ inl (p, h, refl, rw (h, connect_client) refl)
]
connect_client-cases env two a retry_policy rpc_timeout interrupted = elim (Result-cases (plan a)) [
  | inr (e, h) ↦ inr (inl (e, none, rw (h, connect_client) refl, inl (h, refl)))
  | inl (p, h) ↦ inr (inr (refl, rw (h, connect_client) refl))
]
connect_client-cases env two a retry_policy rpc_timeout timed_out = elim (Result-cases (plan a)) [
  | inr (e, h) ↦ inr (inl (e, none, rw (h, connect_client) refl, inl (h, refl)))
  | inl (p, h) ↦ inr (
      inl (
        connect_error a.addr "timed out",
        some closed,
        rw (h, connect_client) refl,
        inr ((λ e. ground (arith, e)), refl),
      ))
]
connect_client-cases env two a retry_policy rpc_timeout (failed details) =
    elim (Result-cases (plan a)) [
      | inr (e, h) ↦ inr (inl (e, none, rw (h, connect_client) refl, inl (h, refl)))
      | inl (p, h) ↦ inr (
          inl (
            connect_error a.addr (reason_of details),
            some closed,
            rw (h, connect_client) refl,
            inr ((λ e. ground (arith, e)), refl),
          ))
    ]
