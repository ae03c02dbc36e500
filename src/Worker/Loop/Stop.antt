-- ===== src/Worker/Loop/Stop.antt =====
-- A stop in order: every task ends, and `run` returns.
use sepp_py.Common.{ℕ, List, [], ◌≡◌}
use sepp_py.Types.Requests.{ReserveOptions}
use sepp_py.Types.Jobs.{Job}
use sepp_py.Worker.Config.{Config}
use sepp_py.Worker.Loop.{stopped, Loop}
use sepp_py.Worker.Loop.Termination.{Takes}

module _ (Serves : ReserveOptions → List Job → Type 0) (c : Config) where
  -- Some steps of the loop lead from here to the end of `run`, with no task left.
  abbrev pub Stops : Loop → Type 0
  Stops s = (n : ℕ) × (t : Loop) × Takes Serves c s n t × (t.phase ≡ stopped) × (t.tasks ≡ [])
