-- ===== src/Client/Lease/Known.antt =====
-- What an extension leaves in the lease.
use sepp_py.Common.{some, ok, ◌≡◌, inl, inr, arith}
use sepp_py.Types.Time.{Timedelta, Datetime}
use sepp_py.Types.Jobs.{Lease, JobCtx}
use sepp_py.Convert.Time.{datetime_to_millis}
use sepp_py.Client.Env.{Env}
use sepp_py.Client.Monad.{Outcome-cases}
use sepp_py.Client.Policy.{Client, World}
use sepp_py.Client.Lease.{extend_inner, extend, lease_extend, ctx_extend}

lease_extend-known :
    (env : Env) (client : Client env) (lease : Lease) (by : Timedelta) (w w' : World env)
    (expiry : Datetime) (lease' : Lease)
    → lease_extend env client lease by w ≡ (ok (expiry, lease'), w')
    → (lease' ≡ record lease { known_expiry_ms = datetime_to_millis expiry })
      × (extend_inner env client lease.job_id lease.attempt by lease.worker_id w ≡ (ok expiry, w'))
unfolding lease_extend
lease_extend-known env client lease by w w' expiry lease' h =
    elim (Outcome-cases (extend_inner env client lease.job_id lease.attempt by lease.worker_id w)) [
      | inr (r, w₁, f) ↦ cc (rw (f, lease_extend) at h)
      | inl (d, w₁, f) ↦ let same = rw (f, lease_extend) at h in ground (arith, f, same)
    ]

extend-inner :
    (env : Env) (client : Client env) (ctx : JobCtx) (lease : Lease) (by : Timedelta)
    (w : World env)
    → ctx.lease ≡ some lease
    → lease.job_id ≡ ctx.id
    → lease.attempt ≡ ctx.attempt
    → extend env client ctx by w
      ≡ extend_inner env client lease.job_id lease.attempt by lease.worker_id w
unfolding extend
extend-inner env client ctx lease by w held id attempt = simp (id, attempt, held, extend)

-- For a context whose lease is of its own job and attempt: where JobCtx.extend succeeds, so does
-- SeppClient.extend with the same expiry and in the same world, and the context's lease changes in
-- its known expiry alone, which becomes the new expiry in milliseconds.
pub ctx_extend-extend :
    (env : Env) (client : Client env) (ctx ctx' : JobCtx) (lease : Lease) (by : Timedelta)
    (w w' : World env) (expiry : Datetime)
    → ctx.lease ≡ some lease
    → lease.job_id ≡ ctx.id
    → lease.attempt ≡ ctx.attempt
    → ctx_extend env client ctx by w ≡ (ok (expiry, ctx'), w')
    → (extend env client ctx by w ≡ (ok expiry, w'))
      × (ctx' ≡ record ctx {
        lease = some (record lease { known_expiry_ms = datetime_to_millis expiry });
      })
unfolding ctx_extend extend
ctx_extend-extend env client ctx ctx' lease by w w' expiry held id attempt h =
    elim (Outcome-cases (lease_extend env client lease by w)) [
      | inr (r, w₁, f) ↦ cc (simp (held, f, ctx_extend) at h)
      | inl ((d, lease'), w₁, f) ↦
          let (updated, inner) = lease_extend-known env client lease by w w₁ d lease' f in
          let same = simp (held, f, ctx_extend) at h in
          ground
            (arith, extend-inner env client ctx lease by w held id attempt, inner, updated, same)
    ]
