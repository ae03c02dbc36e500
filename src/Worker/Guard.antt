-- ===== src/Worker/Guard.antt =====
-- `_run_with_auto_extend` and `_heartbeat`: the handler's task and the heartbeat, interleaved.
-- The event loop, the clock, the handler and the server choose which step comes next.
pub mod Verdict
use sepp_py.Common.{ℕ, suc, ℤ, pos, ◌+ℤ◌, ◌≤ℤ◌, Bool, true, false, Option, none, some, Result, ◌≡◌}
use sepp_py.Types.Time.{Datetime}
use sepp_py.Types.Jobs.{Lease}
use sepp_py.Errors.Exceptions.{Raised}
use sepp_py.Worker.Client.{QueueClient}
use sepp_py.Worker.Config.{AutoExtend}
use sepp_py.Worker.Heartbeat.{Pulse, beating, lost, died, beat_interval, after_extend}
use sepp_py.Worker.Process.{Ending, escaped, JobOutcome, uncaught, plain_outcome}

-- Where the heartbeat's task stands: in `sleep` until an instant, with the answer of `extend` that
-- it has not handled yet, or ended.
pub data Heart : Type 0 where
  asleep : (until : ℤ) → Heart
  answered : Result Raised (Datetime × Lease) → Heart
  over : Heart

-- `is_lost` is the flag `lease_lost[0]`, `asked` is whether the heartbeat called
-- `handler_task.cancel()`, `ending` is set when the handler's task has ended, `outcome` when
-- `_run_with_auto_extend` has; `calls` counts the heartbeat's calls of `extend`.
pub record Guard (W : Type 0) : Type 0 where
  pub world : W
  pub lease : Lease
  pub clock : ℤ
  pub heart : Heart
  pub is_lost : Bool
  pub asked : Bool
  pub ending : Option Ending
  pub outcome : Option JobOutcome
  pub calls : ℕ

unfoldable pub start : {W : Type 0} → AutoExtend → Lease → ℤ → W → Guard W
unfolding beat_interval
start cfg lease clock w = record {
  world = w;
  lease = lease;
  clock = clock;
  heart = asleep (clock +ℤ beat_interval cfg lease clock);
  is_lost = false;
  asked = false;
  ending = none;
  outcome = none;
  calls = 0;
}

-- What the heartbeat does with an answer: the next round, the end with the flag, or the end by an
-- exception that it does not catch.
unfoldable pub hear : {W : Type 0} → AutoExtend → Pulse → Guard W → Guard W
unfolding beat_interval
hear cfg (beating lease) s = record s {
  lease = lease;
  heart = asleep (s.clock +ℤ beat_interval cfg lease s.clock);
}
hear cfg lost s = record s { is_lost = true; asked = true; heart = over }
hear cfg (died r) s = record s { heart = over }

-- The outcome, by the flag and the way the handler ended: what no `except` catches goes through.
unfoldable pub verdict : Bool → Ending → JobOutcome
unfolding plain_outcome
verdict true escaped = uncaught
verdict true e = JobOutcome.lease_lost
verdict false e = plain_outcome e

-- `Acts w l w' l'` says that the handler may take the world from `w` to `w'` between two of its
-- await points, and its lease from `l` to `l'`, since it can extend it itself.
module _ {W : Type 0} (qc : QueueClient W) (cfg : AutoExtend)
    (Acts : W → Lease → W → Lease → Type 0) where
  pub data Step (s : Guard W) : Guard W → Type 0 where
    ticks : (micros : ℕ) → Step s (record s { clock = s.clock +ℤ pos micros })
    acts :
        (w' : W) (lease' : Lease)
        → s.ending ≡ none
        → Acts s.world s.lease w' lease'
        → Step s (record s { world = w'; lease = lease' })
    ends : (e : Ending) → s.ending ≡ none → Step s (record s { ending = some e })
    beats :
        (until : ℤ)
        → s.heart ≡ asleep until
        → until ≤ℤ s.clock
        → Step s (record s {
          world = (qc.extend_lease s.lease cfg.extend_by s.world).1;
          heart = answered (qc.extend_lease s.lease cfg.extend_by s.world).0;
          calls = suc s.calls;
        })
    hears :
        (r : Result Raised (Datetime × Lease))
        → s.heart ≡ answered r
        → Step s (hear cfg (after_extend s.lease s.clock r) s)
    -- The handler's task has ended: the heartbeat is cancelled and waited for.
    reaps :
        (e : Ending)
        → s.ending ≡ some e
        → s.outcome ≡ none
        → Step s (record s { heart = over; outcome = some (verdict s.is_lost e) })

  pub data Steps (s : Guard W) : Guard W → Type 0 where
    here : Steps s s
    then_step : {t u : Guard W} → Steps s t → Step t u → Steps s u
