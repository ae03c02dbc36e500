-- ===== src/Worker/Fleet/Fit.antt =====
-- What holds of a task at each of its places.
use sepp_py.Common.{
  ◌<◌, ◌^◌, Bool, true, false, List, [], ◌∷◌, ◌++◌, map, Option, none, some, Result, ok, err, ◌≡◌,
  ◌≢◌, refl, inl, inr, All, arith,
}
use sepp_py.Types.Jobs.{Lease, Job}
use sepp_py.Errors.Exceptions.{Raised}
use sepp_py.Worker.Config.{Config}
use sepp_py.Worker.Handlers.{Handlers}
use sepp_py.Worker.Client.{QueueClient}
use sepp_py.Worker.Process.{
  Ending, returned, failed, raised, raised_unprintable, cancelled, escaped, Handler, JobOutcome,
  lease_lost, plain_outcome, TaskEnd,
}
use sepp_py.Worker.Process.Quiet.{IsProper, IsOrderly, IsTame, unhandled-IsQuiet, finish-IsQuiet}
use sepp_py.Worker.Guard
use sepp_py.Worker.Guard.{Guard, verdict}
use sepp_py.Worker.Guard.Verdict.{IsSound, start-IsSound, Step-IsSound}
use sepp_py.Worker.System.Leased.{IsCalm, IsCalm-of_IsQuiet}
use sepp_py.Worker.Fleet.{
  Run, Stage, created, plain, guarded, settled, with_first, Advance, begin_plain, begin_guarded,
  begin_unleased, works, ends_plain, moves, ends_guarded, Finish, unhandled, disposed,
}
use sepp_py.Worker.Fleet.Refines.{job_of}

-- A guard is sound and its handler ends properly; a settled task without a lease has no more to do,
-- and any other has an outcome to dispose of.
abbrev pub IsFit : {W : Type 0} → Stage W → Type 0
IsFit created = Unit
IsFit plain = Unit
IsFit (guarded g) = IsSound g × ((e : Ending) → g.ending ≡ some e → IsProper e)
IsFit {W} (settled is_lost o) = (is_lost ≡ true → o ≡ lease_lost) × ((w : W) → IsOrderly (o, w))

pub moved-IsSound :
    {W : Type 0} (g : Guard W) (w : W) → IsSound g → IsSound (record g { world = w })
moved-IsSound g w i = record { flagged = i.flagged; settled = i.settled }

start_ending :
    {W : Type 0} (cfg : _) (lease : Lease) (clock : _) (w : W) (e : Ending)
    → (Guard.start cfg lease clock w).ending ≡ some e
    → IsProper e
unfolding Guard.start
start_ending cfg lease clock w e h = ground (arith, h)

plain-IsOrderly : {W : Type 0} (e : Ending) → IsProper e → (w : W) → IsOrderly (plain_outcome e, w)
unfolding plain_outcome
plain-IsOrderly e h w = ground (arith, h)

verdict-fit :
    {W : Type 0} (b : Bool) (e : Ending)
    → IsProper e
    → (b ≡ true → verdict b e ≡ lease_lost) × ((w : W) → IsOrderly (verdict b e, w))
unfolding verdict
verdict-fit true returned h = (λ _. refl, λ w. tt)
verdict-fit true (failed e) h = (λ _. refl, λ w. tt)
verdict-fit true (raised text) h = (λ _. refl, λ w. tt)
verdict-fit true raised_unprintable h = (λ _. refl, λ w. tt)
verdict-fit true cancelled h = (λ _. refl, λ w. tt)
verdict-fit true escaped h = absurd h
verdict-fit false e h = (λ t. ground (arith, t), plain-IsOrderly e h)

guard-IsFit :
    {W : Type 0} (g : Guard W) (o : JobOutcome)
    → IsFit (guarded g)
    → g.outcome ≡ some o
    → IsFit {W = W} (settled g.is_lost o)
guard-IsFit {W} g o (sound, proper) h = elim sound.settled [
  | inl n ↦ ground (arith, n, h)
  | inr (e, over, ending, out) ↦
      let same : o ≡ verdict g.is_lost e = ground (arith, out, h) in
      rw same (verdict-fit {W = W} g.is_lost e (proper e ending))
]

pub All-insert {ℓ κ} :
    {A : Type ℓ} (P : A → Type κ) (xs : List A) (y : A) (zs : List A)
    → P y
    → All P (xs ++ zs)
    → All P (xs ++ y ∷ zs)
All-insert P [] y zs p h = (p, h)
All-insert P (x ∷ xs) y zs p (q, h) = (q, All-insert P xs y zs p h)

pub All-jobs :
    {W : Type 0} (P : Job → Type 0) (runs : List (Run W))
    → All P (map job_of runs)
    → All (λ r. P r.job) runs
All-jobs P [] h = tt
All-jobs P (r ∷ runs) (p, h) = (p, All-jobs P runs h)

pub with_first-IsFit :
    {W : Type 0} (r : Result Raised (Option (List Job))) (runs : List (Run W))
    → All (λ x. IsFit x.stage) runs
    → All (λ x. IsFit x.stage) (with_first r runs)
unfolding with_first
with_first-IsFit (ok none) runs h = h
with_first-IsFit (ok (some [])) runs h = h
with_first-IsFit (ok (some (job ∷ jobs))) runs h = (tt, h)
with_first-IsFit (err r) runs h = h

module _ {W : Type 0} (qc : QueueClient W) (tame : IsTame qc) {c : Config}
    {hs : Handlers (Handler W)} {Works : Job → W → W → Type 0}
    {Acts : Job → W → Lease → W → Lease → Type 0} {Ends : Job → Ending → Type 0}
    (proper : (job : Job) (e : Ending) → Ends job e → IsProper e) where
  pub Advance-IsFit :
      {job : Job} {stage : Stage W} {w : W} {stage' : Stage W} {w' : W}
      → Advance qc c hs Works Acts Ends job stage w stage' w'
      → job.ctx.lease ≢ none
      → IsFit stage
      → IsFit stage'
  Advance-IsFit (begin_plain h found off) leased i = tt
  Advance-IsFit (begin_guarded h cfg lease clock found on has) leased i =
      (start-IsSound cfg lease clock _, start_ending cfg lease clock _)
  Advance-IsFit (begin_unleased h cfg found on none_there) leased i = absurd (leased none_there)
  Advance-IsFit (works step) leased i = tt
  Advance-IsFit {job} (ends_plain e may) leased i =
      (λ t. ground (arith, t), plain-IsOrderly e (proper job e may))
  Advance-IsFit {job} (moves {w} {g} cfg on x may) leased i =
      (Step-IsSound x (moved-IsSound g w i.0), λ e h. proper job e (may e h))
  Advance-IsFit (ends_guarded {g} o h) leased i = guard-IsFit g o i h

  pub Finish-IsCalm :
      {job : Job} {stage : Stage W} {w : W} {o : TaskEnd × W}
      → Finish qc c hs Works Acts Ends job stage w o
      → job.ctx.attempt < 2 ^ 32
      → IsFit stage
      → IsCalm o.0
  Finish-IsCalm {job} (unhandled {w} none_there) fits i =
      IsCalm-of_IsQuiet _ (unhandled-IsQuiet qc tame job.ctx w fits)
  Finish-IsCalm {job} (disposed {w} is_lost o) fits i =
      IsCalm-of_IsQuiet _ (finish-IsQuiet qc tame job.ctx (o, w) fits (i.1 w))
