-- ===== src/Worker/Config/Build.antt =====
-- Which arguments `Worker.__init__` accepts.
use text.Mathlib.TextLemmas.{cons≢nil, append-eq-nil_iff}
use sepp_py.Common.{
  pos, ◌<ℤ◌, false, [], String, Option, none, some, value_or, IsOk, ◌≡◌, ◌≢◌, ◌↔◌, arith,
}
use sepp_py.Types.Time.{Timedelta}
use sepp_py.Types.Construct.{AllNamed, IsMaxJobs, IsWorkerId, make_reserve_options_iff}
use sepp_py.Worker.Config.{WorkerArgs, default_worker_id, not_positive, asked, make_worker}

-- The hyphen alone makes the default id a text that is not empty.
default_worker_id-nonempty :
    (host : Option String) (pid digits : String) → default_worker_id host pid digits ≢ ""
unfolding default_worker_id
default_worker_id-nonempty host pid digits h =
    let rest = (append-eq-nil_iff.0 h).1 in cons≢nil ((append-eq-nil_iff.0 rest).0)

id_iff : (id : String) (w : Option String) → id ≢ "" → (value_or id w ≢ "") ↔ IsWorkerId w
id_iff id none h = (λ k. tt, λ k. h)
id_iff id (some s) h = (λ k. k, λ k. k)

abbrev pub IsWait : Option Timedelta → Type 0
IsWait none = Unit
IsWait (some t) = pos 0 <ℤ t

not_positive_iff : (w : Option Timedelta) → (not_positive w ≡ false) ↔ IsWait w
not_positive_iff none = ground arith
not_positive_iff (some t) = ground arith

-- A worker can be made exactly with at least one queue, every queue named, a positive lease, a
-- maximum of at least one job if there is one, a positive wait timeout if there is one, and no empty
-- worker id. The id that it makes up where none is given is never refused.
pub make_worker_iff :
    (a : WorkerArgs) (host : Option String) (pid digits : String)
    → a.default_id ≡ default_worker_id host pid digits
    → IsOk (make_worker a) ↔ (
        (a.queues ≢ [])
        × AllNamed a.queues
        × (pos 0 <ℤ a.lease_duration)
        × IsMaxJobs a.max_jobs
        × IsWait a.wait_timeout
        × IsWorkerId a.worker_id)
unfolding make_worker
make_worker_iff a host pid digits h =
    let named =
      id_iff a.default_id a.worker_id (rw h (default_worker_id-nonempty host pid digits)) in
    ground (arith, make_reserve_options_iff (asked a), not_positive_iff a.wait_timeout, named)
