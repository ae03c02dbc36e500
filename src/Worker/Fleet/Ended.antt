-- ===== src/Worker/Fleet/Ended.antt =====
-- Each task can end, wherever it stands in `_run_job`.
use mathlib.Core.Path.{subst}
use sepp_py.Common.{
  Bool, false, List, [], ◌∷◌, map, none, some, arith, ◌≡◌, refl, inl, inr, Option-cases, pos,
}
use sepp_py.Types.Jobs.{Lease, Job}
use sepp_py.Worker.Config.{Config, AutoExtend}
use sepp_py.Worker.Handlers.{Handlers, handler_for}
use sepp_py.Worker.Client.{QueueClient}
use sepp_py.Worker.Process.{Ending, Handler, JobOutcome, no_lease, plain_outcome, TaskEnd, finish}
use sepp_py.Worker.Guard
use sepp_py.Worker.Guard.{Guard, verdict}
use sepp_py.Worker.Loop.{task_done}
use sepp_py.Worker.Fleet.{
  Stage, created, plain, guarded, settled, Run, Fleet, Advance, begin_plain, begin_guarded,
  begin_unleased, ends_plain, moves, ends_guarded, unhandled, disposed, Step, advanced, ended,
}
use sepp_py.Worker.Fleet.Refines.{job_of}

-- A task with a heartbeat: the worker extends leases, and its handler has ended as it may.
abbrev pub IsBegun : {W : Type 0} → Config → (Job → Ending → Type 0) → Job → Stage W → Type 0
IsBegun c Ends job (guarded g) =
    ((cfg : AutoExtend) × (c.auto_extend ≡ some cfg))
    × ((e : Ending) → g.ending ≡ some e → Ends job e)
IsBegun c Ends job _ = Unit

module _ {W : Type 0} (qc : QueueClient W) (c : Config) (hs : Handlers (Handler W))
    (Works : Job → W → W → Type 0) (Acts : Job → W → Lease → W → Lease → Type 0)
    (Ends : Job → Ending → Type 0) (Outside : W → W → Type 0) where
  pub data Steps : Fleet W → Fleet W → Type 0 where
    here : {s : Fleet W} → Steps s s
    first : {s t u : Fleet W} → Step qc c hs Works Acts Ends Outside s t → Steps t u → Steps s u

  pub Steps-trans : {s t u : Fleet W} → Steps s t → Steps t u → Steps s u
  Steps-trans here more = more
  Steps-trans (first x run) more = first x (Steps-trans run more)

  -- The first task of a fleet, and the fleet in which it has ended.
  abbrev pub head_at : Fleet W → Job → List (Run W) → Stage W → W → Fleet W
  head_at f job behind stage w = record f {
    world = w;
    runs = record { job = job; stage = stage } ∷ behind;
  }

  abbrev pub head_ended : Fleet W → Job → List (Run W) → TaskEnd × W → Fleet W
  head_ended f job behind o = record f {
    loop = task_done job (map job_of behind) f.loop;
    world = o.1;
    runs = behind;
    ends = o.0 ∷ f.ends;
  }

  module _ (may_end : (job : Job) → (e : Ending) × Ends job e) (f : Fleet W) (job : Job)
      (behind : List (Run W)) where
    abbrev pub CanEnd : Stage W → W → Type 0
    CanEnd stage w =
        (o : TaskEnd × W) × Steps (head_at f job behind stage w) (head_ended f job behind o)

    onward :
        {stage stage' : Stage W} {w w' : W}
        → Advance qc c hs Works Acts Ends job stage w stage' w'
        → CanEnd stage' w'
        → CanEnd stage w
    onward {stage'} {w'} a (o, run) = (o, first (advanced [] _ behind stage' w' refl a) run)

    from_settled : (is_lost : Bool) (out : JobOutcome) (w : W) → CanEnd (settled is_lost out) w
    from_settled is_lost out w = (
      finish qc job.ctx (out, w),
      first (ended [] _ behind (finish qc job.ctx (out, w)) refl (disposed is_lost out)) here,
    )

    from_outcome :
        (g : Guard W) (w : W) (out : JobOutcome) → g.outcome ≡ some out → CanEnd (guarded g) w
    from_outcome g w out h = onward (ends_guarded out h) (from_settled g.is_lost out w)

    from_ending :
        (g : Guard W) (w : W) (e : Ending)
        → IsBegun c Ends job (guarded g)
        → g.outcome ≡ none
        → g.ending ≡ some e
        → CanEnd (guarded g) w
    from_ending g w e ((cfg, on), may) n h =
        onward (moves cfg on (Guard.reaps e h n) may) (from_outcome _ w (verdict g.is_lost e) refl)

    from_guarded : (g : Guard W) (w : W) → IsBegun c Ends job (guarded g) → CanEnd (guarded g) w
    from_guarded g w ((cfg, on), may) = elim (Option-cases g.outcome) [
      | inr (out, h) ↦ from_outcome g w out h
      | inl n ↦ elim (Option-cases g.ending) [
        | inr (e, h) ↦ from_ending g w e ((cfg, on), may) n h
        | inl running ↦
            let (e, allowed) = may_end job in
            let only : (e' : Ending) → some e ≡ some e' → Ends job e' =
              λ e' same. subst (Ends job) (ground (arith, same)) allowed in
            onward (moves cfg on (Guard.ends e running) only)
              (from_ending _ w e ((cfg, on), only) n refl)
      ]
    ]

    from_created : (w : W) → CanEnd created w
    unfolding Guard.start
    from_created w = elim (Option-cases (handler_for job.ctx.job_type hs)) [
      | inl e ↦ (_, first (ended [] _ behind _ refl (unhandled e)) here)
      | inr (h, found) ↦ elim (Option-cases c.auto_extend) [
        | inl off ↦
            let (e, allowed) = may_end job in
            onward (begin_plain h found off)
              (onward (ends_plain e allowed) (from_settled false (plain_outcome e) w))
        | inr (cfg, on) ↦ elim (Option-cases job.ctx.lease) [
          | inl none_there ↦
              onward (begin_unleased h cfg found on none_there) (from_settled false no_lease w)
          | inr (lease, held) ↦
              onward (begin_guarded h cfg lease (pos 0) found on held)
                (from_guarded _ w ((cfg, on), λ e same. ground (arith, same)))
        ]
      ]
    ]

    pub can_end : (stage : Stage W) (w : W) → IsBegun c Ends job stage → CanEnd stage w
    can_end created w i = from_created w
    can_end plain w i =
        let (e, allowed) = may_end job in
        onward (ends_plain e allowed) (from_settled false (plain_outcome e) w)
    can_end (guarded g) w i = from_guarded g w i
    can_end (settled is_lost out) w i = from_settled is_lost out w
