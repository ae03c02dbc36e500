-- ===== src/Client/Clean.antt =====
-- Which exceptions the lease calls of the client raise.
pub mod Known
pub mod Every
use sepp_py.Wire.Runtime.{Runtime, IsLawful, IsText}
use sepp_py.Wire.Messages.{PbNackRetry}
use sepp_py.Common.{
  Bool-cases, is_empty, Option, refl, ◌<◌, ◌^◌, zero, suc, ℕ, String, Result, ok, err, ◌≡◌, ◌⊎◌,
  inl, inr,
}
use sepp_py.Types.Time.{Timedelta}
use sepp_py.Types.Jobs.{JobCtx}
use sepp_py.Errors.Codes.{RpcError, CodeSet, retryable_codes}
use sepp_py.Errors.Exceptions.{Raised, SeppError, sepp, rpc_error}
use sepp_py.Client.Env.{Env, Rpc}
use sepp_py.Client.Monad.{M, recover, map_rpc_error}
use sepp_py.Client.Policy.{RetryDirective, default, after, dead_letter, Client, World}
use sepp_py.Client.Retry.{with_retry}
use sepp_py.Client.Trace.{call, reply}
use sepp_py.Client.Lease.{set_attempt, reason_field, ack, nack, nack_retry}
use sepp_py.Client.Retry.Attempts.{Attempts, with_retry-Tried}
use sepp_py.Errors.Mapping.{lease_error_from_rpc}

-- A value, or an exception of the library.
abbrev pub IsSepp : {W A : Type 0} → Result Raised A × W → Type 0
IsSepp (ok a, w) = Unit
IsSepp (err (sepp e), w) = Unit
IsSepp (err _, w) = ⊥

-- A value, or the exception of a gRPC call.
abbrev pub IsRpc : {W A : Type 0} → Result Raised A × W → Type 0
IsRpc (ok a, w) = Unit
IsRpc (err (rpc_error e), w) = Unit
IsRpc (err _, w) = ⊥

-- A directive that `RetryDirective.default`, `after` or `dead_letter` makes.
abbrev pub IsDirective : RetryDirective → Type 0
IsDirective d = (d ≡ default) ⊎ ((delay : Timedelta) × (d ≡ after delay)) ⊎ (d ≡ dead_letter)

pub recover-IsSepp :
    {W A : Type 0} (f : RpcError → SeppError) (o : Result Raised A × W)
    → IsRpc o
    → IsSepp (recover (λ e w. (err (sepp (f e)), w)) o)
recover-IsSepp f (ok a, w) h = tt
recover-IsSepp f (err (rpc_error e), w) h = tt
recover-IsSepp f (err _, w) h = absurd h

reply-IsRpc :
    {env : Env} {Resp : Type 0} (w : World env) (o : Result RpcError Resp × env.Server)
    → IsRpc (reply {env = env} w o)
reply-IsRpc w (ok a, server) = tt
reply-IsRpc w (err e, server) = tt

pub call-IsRpc :
    (env : Env) {Req Resp : Type 0} (client : Client env)
    (method : Rpc env.Server env.Float Req Resp) (timeout : env.Float) (span : String) (req : Req)
    (w : World env)
    → IsRpc (call env client method timeout span req w)
unfolding call
call-IsRpc env client method timeout span req w = reply-IsRpc {env = env} w _

module _ (env : Env) {A : Type 0} (codes : CodeSet) (factory : M (World env) A) where
  Attempts-last :
      (n : ℕ) (w : World env) (o : Result Raised A × World env)
      → Attempts env codes factory n w o
      → (last : World env) × (factory last ≡ o)
  Attempts-last zero w o h = (w, h)
  Attempts-last (suc n) w o (e, failed, rested, h, c, s, rest) = Attempts-last n rested o rest

module _ (env : Env) {Req Resp : Type 0} (client : Client env)
    (method : Rpc env.Server env.Float Req Resp) (span : String) (req : Req) (codes : CodeSet)
    (f : RpcError → SeppError) where
  -- The outcome of a call that is retried and whose error is mapped.
  pub mapped-IsSepp :
      (w : World env)
      → IsSepp (
          map_rpc_error f
            (with_retry env client.retry_policy codes
              (call env client method client.rpc_timeout span req))
            w)
  mapped-IsSepp w =
      let sent = call env client method client.rpc_timeout span req in
      let (n, few, attempts, last) = with_retry-Tried env client.retry_policy codes sent w in
      let (w', same) = Attempts-last env codes sent n w _ attempts in
      let answered = call-IsRpc env client method client.rpc_timeout span req w' in
      recover-IsSepp f _ (rw same at answered)

-- However the server behaves, `ack` with an attempt that fits its field returns or raises an
-- exception of the library.
pub ack-IsSepp :
    (env : Env) (client : Client env)
    → IsLawful env.runtime
    → (ctx : JobCtx) (w : World env) → ctx.attempt < 2 ^ 32
    → IsSepp (ack env client ctx w)
unfolding ack set_attempt
ack-IsSepp env client lawful ctx w fits =
    rw (lawful.uint32_fits ctx.attempt fits, ack, set_attempt)
      (mapped-IsSepp env client env.stub_ack "sepp.ack" _ retryable_codes lease_error_from_rpc w)

-- A directive of `RetryDirective`'s own constructors stands for a `NackRetry`.
pub directive_ok :
    (rt : Runtime) (d : RetryDirective)
    → IsDirective d
    → (nr : PbNackRetry) × (nack_retry rt d ≡ ok nr)
unfolding nack_retry
directive_ok rt d (inl e) = rw e (_, refl)
directive_ok rt d (inr (inl (delay, e))) = rw e (_, refl)
directive_ok rt d (inr (inr e)) = rw e (_, refl)

reason_ok :
    (rt : Runtime) (reason : String)
    → IsLawful rt
    → IsText reason
    → (field : Option String) × (reason_field rt reason ≡ ok field)
unfolding reason_field
reason_ok rt reason lawful t = elim (Bool-cases (is_empty reason)) [
  | inl b ↦ rw (b, reason_field) (_, refl)
  | inr b ↦ rw (b, lawful.text_fits reason t, reason_field) (_, refl)
]

-- With a directive that `RetryDirective`'s own constructors make, an attempt that fits its field and
-- a reason without lone surrogates, and however the server behaves, `nack` returns or raises an
-- exception of the library.
pub nack-IsSepp :
    (env : Env) (client : Client env)
    → IsLawful env.runtime
    → (ctx : JobCtx) (d : RetryDirective) (reason : String) (w : World env) → ctx.attempt < 2 ^ 32
    → IsDirective d
    → IsText reason
    → IsSepp (nack env client ctx d reason w)
unfolding nack set_attempt
nack-IsSepp env client lawful ctx d reason w fits h t =
    let (nr, e) = directive_ok env.runtime d h in
    let (field, f) = reason_ok env.runtime reason lawful t in
    rw (e, f, lawful.uint32_fits ctx.attempt fits, nack, set_attempt)
      (mapped-IsSepp env client env.stub_nack "sepp.nack" _ retryable_codes lease_error_from_rpc w)
