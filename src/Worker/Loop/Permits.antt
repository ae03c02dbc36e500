-- ===== src/Worker/Loop/Permits.antt =====
-- The semaphore of the poll loop against the jobs in flight.
use sepp_py.Common.{
  ◌+◌, ◌≡◌, Bool, true, false, List, ◌∷◌, length, length-append, refl, ap, arith, if◌then◌else◌,
}
use sepp_py.Types.Requests.{ReserveOptions}
use sepp_py.Types.Jobs.{Job}
use sepp_py.Worker.Config.{Config}
use sepp_py.Worker.Loop.{
  top, resting, Loop, held, spawn, task_done, take_batch, is_early_empty, Step, signal, end_task,
  enter, leave, acquire, acquire_abandoned, reserve_failed, reserve_abandoned, reserve_crashed,
  reserve_empty, reserve_jobs, spawn_next, batch_done, rested, rest_abandoned, drained, cancel,
  Reach, begin, next,
}

-- Each permit is free, held by `run` or owned by one task in flight.
pub record IsAccounted (c : Config) (s : Loop) : Type 0 where
  pub permits : s.permits + s.in_flight + held s.phase ≡ c.max_in_flight
  pub tasks : length s.tasks ≡ s.in_flight

held_after_empty : (early : Bool) → held (if early then resting else top) ≡ 0
held_after_empty true = refl
held_after_empty false = refl

module _ {Serves : ReserveOptions → List Job → Type 0} {c : Config} where
  Step-IsAccounted : {s t : Loop} → Step Serves c s t → IsAccounted c s → IsAccounted c t
  unfolding spawn task_done take_batch
  Step-IsAccounted signal i = record { permits = i.permits; tasks = i.tasks }
  Step-IsAccounted {s} (end_task job before behind e) i = record {
    permits = ground (arith, i.permits, i.tasks, ap length e, length-append before (job ∷ behind));
    tasks = ground (
      arith,
      i.tasks,
      ap length e,
      length-append before (job ∷ behind),
      length-append before behind,
    );
  }
  Step-IsAccounted (enter h d) i = record {
    permits = ground (arith, i.permits, ap held h);
    tasks = i.tasks;
  }
  Step-IsAccounted (leave h d) i = record {
    permits = ground (arith, i.permits, ap held h);
    tasks = i.tasks;
  }
  Step-IsAccounted (acquire opts h free e) i = record {
    permits = ground (arith, i.permits, ap held h);
    tasks = i.tasks;
  }
  Step-IsAccounted (acquire_abandoned h d) i = record {
    permits = ground (arith, i.permits, ap held h);
    tasks = i.tasks;
  }
  Step-IsAccounted (reserve_failed opts h) i = record {
    permits = ground (arith, i.permits, ap held h);
    tasks = i.tasks;
  }
  Step-IsAccounted (reserve_abandoned opts h d) i = record {
    permits = ground (arith, i.permits, ap held h);
    tasks = i.tasks;
  }
  Step-IsAccounted (reserve_crashed opts h) i = record {
    permits = ground (arith, i.permits, ap held h);
    tasks = i.tasks;
  }
  Step-IsAccounted (reserve_empty opts elapsed h) i = record {
    permits = ground (arith, i.permits, ap held h, held_after_empty (is_early_empty elapsed opts));
    tasks = i.tasks;
  }
  Step-IsAccounted (reserve_jobs opts job jobs h served) i = record {
    permits = ground (arith, i.permits, ap held h);
    tasks = ground (arith, i.tasks);
  }
  Step-IsAccounted (spawn_next job jobs h free) i = record {
    permits = ground (arith, i.permits, ap held h);
    tasks = ground (arith, i.tasks);
  }
  Step-IsAccounted (batch_done h) i = record {
    permits = ground (arith, i.permits, ap held h);
    tasks = i.tasks;
  }
  Step-IsAccounted (rested h) i = record {
    permits = ground (arith, i.permits, ap held h);
    tasks = i.tasks;
  }
  Step-IsAccounted (rest_abandoned h d) i = record {
    permits = ground (arith, i.permits, ap held h);
    tasks = i.tasks;
  }
  Step-IsAccounted (drained h none_left) i = record {
    permits = ground (arith, i.permits, ap held h);
    tasks = i.tasks;
  }
  Step-IsAccounted (cancel h) i = record { permits = ground (arith, i.permits); tasks = refl }

  -- In every state that the poll loop reaches, the free permits, the jobs in flight and the
  -- permits that `run` holds itself add up to `max_in_flight`, and each task is in flight.
  pub Reach-IsAccounted : {s : Loop} → Reach Serves c s → IsAccounted c s
  Reach-IsAccounted begin = record { permits = ground arith; tasks = refl }
  Reach-IsAccounted (next r step) = Step-IsAccounted step (Reach-IsAccounted r)
