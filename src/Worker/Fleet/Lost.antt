-- ===== src/Worker/Fleet/Lost.antt =====
-- A task whose lease is lost, at each of its places.
use sepp_py.Common.{
  Bool, true, false, List, [], ◌∷◌, Option, none, some, Result, ok, err, ◌≡◌, ◌≢◌, refl, inl, inr,
  All, arith,
}
use sepp_py.Types.Jobs.{Lease, Job}
use sepp_py.Errors.Exceptions.{Raised}
use sepp_py.Worker.Config.{Config}
use sepp_py.Worker.Handlers.{Handlers}
use sepp_py.Worker.Client.{QueueClient}
use sepp_py.Worker.Process.{
  Ending, returned, failed, raised, raised_unprintable, cancelled, escaped, Handler, JobOutcome,
  lease_lost,
}
use sepp_py.Worker.Guard
use sepp_py.Worker.Guard.{Guard, verdict}
use sepp_py.Worker.Guard.Verdict.{IsSound, start-IsSound, Step-IsSound}
use sepp_py.Worker.Loop.Supplied.{All-split}
use sepp_py.Worker.Fleet.{
  Run, Stage, created, plain, guarded, settled, Fleet, with_first, Advance, begin_plain,
  begin_guarded, begin_unleased, works, ends_plain, moves, ends_guarded, elsewhere, waited,
  reserved, spawned, advanced, ended, cancelled_run, Reach, begin, next,
}
use sepp_py.Worker.Fleet.Fit.{All-insert, moved-IsSound}

-- A guard is sound, and its handler has ended by no exception that goes through; a task that has
-- settled with the flag has the outcome of a lost lease.
abbrev pub IsMarked : {W : Type 0} → Stage W → Type 0
IsMarked created = Unit
IsMarked plain = Unit
IsMarked (guarded g) = IsSound g × ((e : Ending) → g.ending ≡ some e → e ≢ escaped)
IsMarked (settled is_lost o) = is_lost ≡ true → o ≡ lease_lost

begun_ending :
    {W : Type 0} (cfg : _) (lease : Lease) (clock : _) (w : W) (e : Ending)
    → (Guard.start cfg lease clock w).ending ≡ some e
    → e ≢ escaped
unfolding Guard.start
begun_ending cfg lease clock w e h = ground (arith, h)

marked_verdict : (b : Bool) (e : Ending) → e ≢ escaped → b ≡ true → verdict b e ≡ lease_lost
unfolding verdict
marked_verdict true returned h t = refl
marked_verdict true (failed e) h t = refl
marked_verdict true (raised text) h t = refl
marked_verdict true raised_unprintable h t = refl
marked_verdict true cancelled h t = refl
marked_verdict true escaped h t = absurd (h refl)
marked_verdict false e h t = ground (arith, t)

guard-IsMarked :
    {W : Type 0} (g : Guard W) (o : JobOutcome)
    → IsMarked (guarded g)
    → g.outcome ≡ some o
    → IsMarked {W = W} (settled g.is_lost o)
guard-IsMarked g o (sound, through) h t = elim sound.settled [
  | inl n ↦ ground (arith, n, h)
  | inr (e, over, ending, out) ↦
      let same : o ≡ verdict g.is_lost e = ground (arith, out, h) in
      rw same (marked_verdict g.is_lost e (through e ending) t)
]

with_first-IsMarked :
    {W : Type 0} (r : Result Raised (Option (List Job))) (runs : List (Run W))
    → All (λ x. IsMarked x.stage) runs
    → All (λ x. IsMarked x.stage) (with_first r runs)
unfolding with_first
with_first-IsMarked (ok none) runs h = h
with_first-IsMarked (ok (some [])) runs h = h
with_first-IsMarked (ok (some (job ∷ jobs))) runs h = (tt, h)
with_first-IsMarked (err r) runs h = h

module _ {W : Type 0} (qc : QueueClient W) {c : Config} {hs : Handlers (Handler W)}
    {Works : Job → W → W → Type 0} {Acts : Job → W → Lease → W → Lease → Type 0}
    {Ends : Job → Ending → Type 0}
    (through : (job : Job) (e : Ending) → Ends job e → e ≢ escaped) where
  Advance-IsMarked :
      {job : Job} {stage : Stage W} {w : W} {stage' : Stage W} {w' : W}
      → Advance qc c hs Works Acts Ends job stage w stage' w'
      → IsMarked stage
      → IsMarked stage'
  Advance-IsMarked (begin_plain h found off) i = tt
  Advance-IsMarked (begin_guarded h cfg lease clock found on has) i =
      (start-IsSound cfg lease clock _, begun_ending cfg lease clock _)
  Advance-IsMarked (begin_unleased h cfg found on none_there) i = λ t. ground (arith, t)
  Advance-IsMarked (works step) i = tt
  Advance-IsMarked (ends_plain e may) i = λ t. ground (arith, t)
  Advance-IsMarked {job} (moves {w} {g} cfg on x may) i =
      (Step-IsSound x (moved-IsSound g w i.0), λ e h. through job e (may e h))
  Advance-IsMarked (ends_guarded {g} o h) i = guard-IsMarked g o i h

  pub Reach-IsMarked :
      {Outside : W → W → Type 0} {w : W} {s : Fleet W}
      → Reach qc c hs Works Acts Ends Outside w s
      → All (λ r. IsMarked r.stage) s.runs
  Reach-IsMarked begin = tt
  Reach-IsMarked (next r (elsewhere w step)) = Reach-IsMarked r
  Reach-IsMarked (next r (waited x l)) = Reach-IsMarked r
  Reach-IsMarked (next {s} r (reserved opts elapsed h)) =
      with_first-IsMarked _ s.runs (Reach-IsMarked r)
  Reach-IsMarked (next r (spawned job jobs h free)) = (tt, Reach-IsMarked r)
  Reach-IsMarked (next r (advanced before run behind stage w e a)) =
      let (this, rest) =
        All-split (λ x. IsMarked x.stage) before run behind (rw e at (Reach-IsMarked r)) in
      All-insert (λ x. IsMarked x.stage) before (record run { stage = stage }) behind
        (Advance-IsMarked a this) rest
  Reach-IsMarked (next r (ended before run behind o e f)) =
      (All-split (λ x. IsMarked x.stage) before run behind (rw e at (Reach-IsMarked r))).1
  Reach-IsMarked (next r (cancelled_run h)) = tt
