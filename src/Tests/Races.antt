-- ===== src/Tests/Races.antt =====
-- A shutdown that wins against an awaitable, and a handler whose lease is lost.
use sepp_py.Common.{ℕ, pos, ◌+ℤ◌, ◌-ℤ◌, true, false, [], ◌∷◌, some, ◌≡◌, ◌⊎◌, refl, arith}
use sepp_py.Errors.Codes.{not_found, retryable_codes}
use sepp_py.Errors.Mapping.{lease_error_from_rpc}
use sepp_py.Convert.Time.{now_millis, datetime_to_millis}
use sepp_py.Client.Lease.{set_attempt, lease_extend, extend_inner}
use sepp_py.Client.Policy.{World}
use sepp_py.Client.Retry.{with_retry}
use sepp_py.Client.Trace.{call}
use sepp_py.Errors.Exceptions.{base_exception}
use sepp_py.Worker.Client.{QueueClient, sepp_client}
use sepp_py.Worker.Heartbeat.{div_round, heartbeat_interval, beat_interval, after_extend, heartbeat}
use sepp_py.Worker.Process.{Ending, JobOutcome, completed, crashed, plain_outcome, finish}
use sepp_py.Worker.Race
use sepp_py.Worker.Race.{fired, shutdown_won, left, Race}
use sepp_py.Worker.Race.Reaped.{Holds, Reach-Holds}
use sepp_py.Worker.Guard.{
  over, Guard, start, hear, verdict, ticks, ends, beats, hears, reaps, Steps, here, then_step,
}
use sepp_py.Worker.Guard.Verdict.{Steps-finish}
use sepp_py.Tests.Reference.{scripted, client, world}
use sepp_py.Tests.Runs.{extending, lease, job}

abbrev shut : Race ℕ
shut = record {
  task = Race.ended Race.cancelled;
  watch = fired;
  asked = true;
  place = left shutdown_won;
}

to_shut : Race.Reach shut
unfolding Race.wake
to_shut =
    Race.next
      (Race.next (Race.next (Race.next Race.begin (Race.signal_fires refl)) (Race.wakes refl refl))
        (Race.task_ends Race.cancelled refl))
      (Race.task_reaped refl refl)

Reach-Holds_example : Holds (left shutdown_won) shut
Reach-Holds_example = Reach-Holds to_shut

-- The handler goes on for twenty seconds; then the server no longer knows the job.
abbrev worker_client : QueueClient (World scripted)
worker_client = sepp_client scripted client

abbrev gone : Guard (World scripted)
gone = record {
  world = world [];
  lease = lease;
  clock = pos 20000000;
  heart = over;
  is_lost = true;
  asked = true;
  ending = some Ending.returned;
  outcome = some JobOutcome.lease_lost;
  calls = 1;
}

program : Unit {0}
unfolding start hear verdict heartbeat beat_interval heartbeat_interval div_round now_millis
    datetime_to_millis ◌+ℤ◌ ◌-ℤ◌ after_extend set_attempt lease_extend extend_inner with_retry call
    retryable_codes lease_error_from_rpc
program = tt

to_gone :
    Steps worker_client extending
      (λ w lease w' lease'. Unit)
      (start extending lease (pos 0) (world (not_found ∷ [])))
      gone
unfolding program
to_gone =
    then_step
      (then_step
        (then_step
          (then_step (then_step here (ticks 20000000)) (beats (pos 20000000) refl (omega arith)))
          (hears _ refl))
        (ends Ending.returned refl))
      (reaps Ending.returned refl refl)

Steps-finish_example :
    (e : Ending) × (gone.heart ≡ over)
    × (gone.ending ≡ some e)
    × (((gone.is_lost ≡ true)
          × ((finish worker_client job.ctx (JobOutcome.lease_lost, gone.world)
                ≡ (completed [], gone.world))
              ⊎ ((e ≡ Ending.escaped)
                  × (finish worker_client job.ctx (JobOutcome.lease_lost, gone.world)
                      ≡ (crashed base_exception, gone.world)))))
        ⊎ ((gone.is_lost ≡ false)
            × (finish worker_client job.ctx (JobOutcome.lease_lost, gone.world)
                ≡ finish worker_client job.ctx (plain_outcome e, gone.world))))
Steps-finish_example =
    Steps-finish job.ctx lease (pos 0) (world (not_found ∷ [])) JobOutcome.lease_lost to_gone refl
