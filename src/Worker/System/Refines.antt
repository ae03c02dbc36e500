-- ===== src/Worker/System/Refines.antt =====
-- The worker with its client against the poll loop alone.
use sepp_py.Common.{Bool, true, List, [], ◌∷◌, Option, none, some, Result, ok, err, ◌≡◌, refl}
use sepp_py.Types.Time.{Timedelta}
use sepp_py.Types.Requests.{ReserveOptions}
use sepp_py.Types.Jobs.{Job}
use sepp_py.Errors.Exceptions.{Raised, sepp}
use sepp_py.Worker.Config.{Config}
use sepp_py.Worker.Handlers.{Handlers}
use sepp_py.Worker.Client.{QueueClient}
use sepp_py.Worker.Process.{Handler}
use sepp_py.Worker.Loop
use sepp_py.Worker.Loop.{
  Phase, reserving, Loop, signal, end_task, enter, leave, acquire, acquire_abandoned,
  reserve_failed, reserve_abandoned, reserve_crashed, reserve_empty, reserve_jobs, spawn_next,
  batch_done, rested, rest_abandoned, drained, cancel,
}
use sepp_py.Worker.System.{
  System, Nothing, is_local, after_reserve, reserve_ended, task_ended, elsewhere, waited, reserved,
  processed_job, Reach, begin, next,
}

-- What the poll loop may be served: the jobs that some reserve call of the client returns.
abbrev pub Serves : {W : Type 0} → QueueClient W → ReserveOptions → List Job → Type 0
Serves {W} qc opts jobs = (w : W) × (w' : W) × (qc.reserve_jobs opts w ≡ (ok (some jobs), w'))

module _ {W : Type 0} (qc : QueueClient W) {c : Config} where
  pub local-Step :
      {s t : Loop} (x : Loop.Step Nothing c s t) → is_local x ≡ true → Loop.Step (Serves qc) c s t
  unfolding is_local
  local-Step signal h = signal
  local-Step (end_task job before behind e) h = end_task job before behind e
  local-Step (enter h d) l = enter h d
  local-Step (leave h d) l = leave h d
  local-Step (acquire opts h free e) l = acquire opts h free e
  local-Step (acquire_abandoned h d) l = acquire_abandoned h d
  local-Step (reserve_failed opts h) l = reserve_failed opts h
  local-Step (reserve_abandoned opts h d) l = reserve_abandoned opts h d
  local-Step (reserve_crashed opts h) l = reserve_crashed opts h
  local-Step (reserve_empty opts elapsed h) l = reserve_empty opts elapsed h
  local-Step (reserve_jobs opts job jobs h served) l = absurd served
  local-Step (spawn_next job jobs h free) l = spawn_next job jobs h free
  local-Step (batch_done h) l = batch_done h
  local-Step (rested h) l = rested h
  local-Step (rest_abandoned h d) l = rest_abandoned h d
  local-Step (drained h none_left) l = drained h none_left
  local-Step (cancel h) l = cancel h

  pub after_reserve-Step :
      (opts : ReserveOptions) (elapsed : Timedelta) (w : W)
      (o : Result Raised (Option (List Job)) × W) (s : Loop)
      → qc.reserve_jobs opts w ≡ o
      → s.phase ≡ reserving opts
      → Loop.Step (Serves qc) c s (after_reserve opts elapsed o.0 s)
  unfolding after_reserve
  after_reserve-Step opts elapsed w (ok none, w') s e h = reserve_empty opts elapsed h
  after_reserve-Step opts elapsed w (ok (some []), w') s e h = reserve_crashed opts h
  after_reserve-Step opts elapsed w (ok (some (job ∷ jobs)), w') s e h =
      reserve_jobs opts job jobs h (w, w', e)
  after_reserve-Step opts elapsed w (err (sepp x), w') s e h = reserve_failed opts h
  after_reserve-Step opts elapsed w (err r, w') s e h = reserve_crashed opts h

  module _ {Outside : W → W → Type 0} {hs : Handlers (Handler W)} where
    -- Every run of the worker with its client is, in its loop, a run of the poll loop that is
    -- served what the client's reserve calls return: so it has all that holds of the poll loop.
    pub Reach-loop :
        {otel_available : Bool} {w : W} {s : System W}
        → Reach qc Outside c hs otel_available w s
        → Loop.Reach (Serves qc) c s.loop
    unfolding reserve_ended task_ended
    Reach-loop begin = Loop.begin
    Reach-loop (next r (elsewhere w step)) = Reach-loop r
    Reach-loop (next r (waited x l)) = Loop.next (Reach-loop r) (local-Step x l)
    Reach-loop (next {s} r (reserved opts elapsed h)) =
        Loop.next (Reach-loop r)
          (after_reserve-Step opts elapsed s.world (qc.reserve_jobs opts s.world) s.loop refl h)
    Reach-loop (next r (processed_job job before behind clock lates e)) =
        Loop.next (Reach-loop r) (end_task job before behind e)
