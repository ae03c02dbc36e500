-- ===== src/Worker/Race.antt =====
-- `_or_shutdown`: an awaitable against the shutdown signal, between the points where it waits.
-- The event loop chooses when the two children end, when the coroutine wakes, and when its own
-- caller cancels it.
pub mod Reaped
use sepp_py.Common.{Bool, true, false, ◌||◌, ◌≡◌}
use sepp_py.Errors.Exceptions.{Raised}

-- How a task ends.
pub data Outcome (A : Type 0) : Type 0 where
  returned : A → Outcome A
  raised : Raised → Outcome A
  cancelled : Outcome A

-- `task`, which runs the awaitable.
pub data Child (A : Type 0) : Type 0 where
  running : Child A
  ended : Outcome A → Child A

-- `sd`, which waits for the signal.
pub data Watch : Type 0 where
  waiting fired dropped : Watch

-- What the caller gets: what `task.result()` gives, `(None, True)`, or its own cancellation.
pub data Verdict (A : Type 0) : Type 0 where
  result : Outcome A → Verdict A
  shutdown_won : Verdict A
  caller_cancelled : Verdict A

-- Where the coroutine stands: in `asyncio.wait`, in one of its three calls of `gather`, or done.
pub data Place (A : Type 0) : Type 0 where
  parked : Place A
  reaping_task : Place A
  reaping_watch : Place A
  reaping_both : Place A
  left : Verdict A → Place A

-- `asked` is whether `task.cancel()` was called.
pub record Race (A : Type 0) : Type 0 where
  pub task : Child A
  pub watch : Watch
  pub asked : Bool
  pub place : Place A

abbrev pub start : {A : Type 0} → Race A
start = record { task = running; watch = waiting; asked = false; place = parked }

abbrev pub is_ended : {A : Type 0} → Child A → Bool
is_ended running = false
is_ended (ended o) = true

abbrev pub is_over : Watch → Bool
is_over waiting = false
is_over _ = true

-- What follows `asyncio.wait`, by which of the two are done: the tests behind the `try`.
unfoldable pub wake : {A : Type 0} → Child A → Watch → Race A → Race A
wake running w s = record s { asked = true; place = reaping_task }
wake (ended o) waiting s = record s { place = reaping_watch }
wake (ended o) w s = record s { place = left (result o) }

pub data Step {A : Type 0} (s : Race A) : Race A → Type 0 where
  task_ends : (o : Outcome A) → s.task ≡ running → Step s (record s { task = ended o })
  signal_fires : s.watch ≡ waiting → Step s (record s { watch = fired })
  wakes :
      s.place ≡ parked → is_ended s.task || is_over s.watch ≡ true → Step s (wake s.task s.watch s)
  task_reaped :
      s.place ≡ reaping_task
      → is_ended s.task ≡ true
      → Step s (record s { place = left shutdown_won })
  -- `sd.cancel()` was called, and the watch ends with it.
  watch_drops : s.place ≡ reaping_watch → s.watch ≡ waiting → Step s (record s { watch = dropped })
  watch_reaped :
      (o : Outcome A)
      → s.place ≡ reaping_watch
      → s.task ≡ ended o
      → is_over s.watch ≡ true
      → Step s (record s { place = left (result o) })
  -- The caller is cancelled: in `wait` the handler cancels both children, in `gather` the
  -- cancellation reaches the child that is gathered, and both are waited for.
  cancel_parked : s.place ≡ parked → Step s (record s { asked = true; place = reaping_both })
  cancel_reaping_task : s.place ≡ reaping_task → Step s (record s { place = reaping_both })
  cancel_reaping_watch : s.place ≡ reaping_watch → Step s (record s { place = reaping_both })
  both_drop : s.place ≡ reaping_both → s.watch ≡ waiting → Step s (record s { watch = dropped })
  both_reaped :
      s.place ≡ reaping_both
      → is_ended s.task ≡ true
      → is_over s.watch ≡ true
      → Step s (record s { place = left caller_cancelled })

pub data Reach {A : Type 0} : Race A → Type 0 where
  begin : Reach start
  next : {s t : Race A} → Reach s → Step s t → Reach t
