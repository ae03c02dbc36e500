-- ===== src/Client/Clean/Every.antt =====
-- Which exceptions the operations of the client raise, all of them.
use sepp_py.Common
use sepp_py.Common.{none, some, Result, ok, err, traverse, or_raise, ◌≡◌, ◌⊎◌, Bool, true, false}
use sepp_py.Client.Env.{Env}
use sepp_py.Client.Policy.{Client}
