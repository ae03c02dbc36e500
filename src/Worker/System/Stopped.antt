-- ===== src/Worker/System/Stopped.antt =====
-- A worker whose `run` has returned.
use sepp_py.Common.{◌+◌, ◌≤◌, pos, Bool, ◌≡◌, All, length}
use sepp_py.Types.Jobs.{Job}
use sepp_py.Client.Env.{Env}
use sepp_py.Client.Policy.{Client}
use sepp_py.Worker.Config.{Config}
use sepp_py.Worker.Handlers.{Handlers}
use sepp_py.Worker.Process.{processed}
use sepp_py.Worker.Loop.Drain.{tally}
use sepp_py.Worker.System.{System}
use sepp_py.Worker.System.Leased.{IsCalm}

-- What a worker leaves when `run` returns.
pub record IsComplete {W : Type 0} (s : System W) : Type 0 where
  pub each : length s.ends ≡ length s.loop.received
  pub same : (p : Job → Bool) → tally p s.loop.received ≡ tally p s.loop.finished
  pub calm : All IsCalm s.ends
  pub idle : s.metrics.counts.in_flight ≡ pos 0
  pub counted :
      s.metrics.counts.processed + s.metrics.counts.nacked_retry
        + s.metrics.counts.nacked_dead_letter
      ≤ length s.loop.received
