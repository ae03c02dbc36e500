-- ===== src/Worker/Race/Reaped.antt =====
-- What a verdict of the race means, and that no child is left behind.
use sepp_py.Common.{true, ◌||◌, ◌≡◌, ◌≢◌, ◌⊎◌, inl, inr, refl, arith}
use sepp_py.Worker.Race.{
  Outcome, Child, running, ended, Watch, waiting, fired, dropped, result, shutdown_won,
  caller_cancelled, Place, parked, reaping_task, reaping_watch, reaping_both, left, Race, is_ended,
  is_over, wake, Step, task_ends, signal_fires, wakes, task_reaped, watch_drops, watch_reaped,
  cancel_parked, cancel_reaping_task, cancel_reaping_watch, both_drop, both_reaped, Reach, begin,
  next,
}

-- What holds at each place.
abbrev pub Holds : {A : Type 0} → Place A → Race A → Type 0
Holds parked s = s.watch ≢ dropped
Holds reaping_task s = (s.watch ≡ fired) × (s.asked ≡ true)
Holds reaping_watch s = is_ended s.task ≡ true
Holds reaping_both s = Unit
Holds (left (result o)) s = (s.task ≡ ended o) × (is_over s.watch ≡ true)
Holds (left shutdown_won) s = (s.watch ≡ fired) × (s.asked ≡ true) × (is_ended s.task ≡ true)
Holds (left caller_cancelled) s = (is_ended s.task ≡ true) × (is_over s.watch ≡ true)

module _ {A : Type 0} where
  ended-Holds :
      (p : Place A) (s : Race A) (o : Outcome A)
      → s.task ≡ running
      → Holds p s
      → Holds p (record s { task = ended o })
  ended-Holds p s o r i = ground (arith, r, i)

  fired-Holds :
      (p : Place A) (s : Race A)
      → s.watch ≡ waiting
      → Holds p s
      → Holds p (record s { watch = fired })
  fired-Holds p s w i = ground (arith, w, i)

  wake-Holds :
      (t : Child A) (w : Watch) (s : Race A)
      → s.task ≡ t
      → s.watch ≡ w
      → w ≢ dropped
      → is_ended t || is_over w ≡ true
      → Holds (wake t w s).place (wake t w s)
  unfolding wake
  wake-Holds t w s et ew n d = ground (arith, et, ew, n, d)

  parked-Holds : (p : Place A) (s : Race A) → p ≡ parked → Holds p s → s.watch ≢ dropped
  parked-Holds p s e i = ground (arith, e, i)

  task-Holds :
      (p : Place A) (s : Race A)
      → p ≡ reaping_task
      → Holds p s
      → (s.watch ≡ fired) × (s.asked ≡ true)
  task-Holds p s e i = ground (arith, e, i)

  dropped-Holds :
      (p : Place A) (s : Race A)
      → (p ≡ reaping_watch) ⊎ (p ≡ reaping_both)
      → Holds p s
      → Holds p (record s { watch = dropped })
  dropped-Holds p s e i = ground (arith, e, i)

  Step-Holds : {s t : Race A} → Step s t → Holds s.place s → Holds t.place t
  Step-Holds {s} (task_ends o r) i = ended-Holds s.place s o r i
  Step-Holds {s} (signal_fires w) i = fired-Holds s.place s w i
  Step-Holds {s} (wakes p d) i =
      wake-Holds s.task s.watch s refl refl (parked-Holds s.place s p i) d
  Step-Holds {s} (task_reaped p e) i = let (w, q) = task-Holds s.place s p i in (w, q, e)
  Step-Holds {s} (watch_drops p w) i = dropped-Holds s.place s (inl p) i
  Step-Holds (watch_reaped o p e w) i = (e, w)
  Step-Holds (cancel_parked p) i = tt
  Step-Holds (cancel_reaping_task p) i = tt
  Step-Holds (cancel_reaping_watch p) i = tt
  Step-Holds {s} (both_drop p w) i = dropped-Holds s.place s (inr p) i
  Step-Holds (both_reaped p e w) i = (e, w)

  -- However the event loop orders the children, the signal and a cancellation of the caller: when
  -- `_or_shutdown` gives the awaitable's own result, the awaitable has ended with it; when it says
  -- that shutdown won, the signal was set and the awaitable was cancelled and has ended; when its
  -- caller was cancelled, both children have ended. It leaves no child running.
  pub Reach-Holds : {s : Race A} → Reach s → Holds s.place s
  Reach-Holds begin = ground arith
  Reach-Holds (next r x) = Step-Holds x (Reach-Holds r)
