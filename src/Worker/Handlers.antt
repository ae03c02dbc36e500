-- ===== src/Worker/Handlers.antt =====
-- The table of handlers: one for each job type, and a catch-all.
pub mod Table
pub mod Distinct
pub mod History
use sepp_py.Common.{
  String, Option, none, some, is_some, Dict, get, put, pop, Result, ok, err, ◌>>=◌, if◌then◌else◌,
  [],
}

-- `H` is the type of handlers, which are user code.
pub record Handlers (H : Type 0) : Type 0 where
  pub table : Dict H
  pub catch_all_handler : Option H

pub data DuplicateHandlerError : Type 0 where
  duplicate_handler : (job_type : String) → DuplicateHandlerError

abbrev pub no_handlers : {H : Type 0} → Handlers H
no_handlers = record { table = []; catch_all_handler = none }

module _ {H : Type 0} where
  unfoldable pub handle : String → H → Handlers H → Result DuplicateHandlerError (Handlers H)
  handle job_type h hs =
      if is_some (get job_type hs.table)
      then err (duplicate_handler job_type)
      else ok (record hs { table = put job_type h hs.table })

  -- The decorator of `handler(job_type)`: it gives the function back.
  unfoldable pub handler : String → H → Handlers H → Result DuplicateHandlerError (H × Handlers H)
  unfolding handle
  handler job_type fn hs = handle job_type fn hs >>= λ hs'. ok (fn, hs')

  unfoldable pub replace_handler : String → H → Handlers H → Handlers H
  replace_handler job_type h hs = record hs { table = put job_type h hs.table }

  unfoldable pub remove_handler : String → Handlers H → Handlers H
  remove_handler job_type hs = record hs { table = pop job_type hs.table }

  unfoldable pub catch_all : H → Handlers H → Handlers H
  catch_all h hs = record hs { catch_all_handler = some h }

  -- `self._handlers.get(ctx.job_type) or self._catch_all_handler`
  abbrev pub or_else : Option H → Option H → Option H
  or_else none d = d
  or_else (some h) d = some h

  unfoldable pub handler_for : String → Handlers H → Option H
  handler_for job_type hs = or_else (get job_type hs.table) hs.catch_all_handler
