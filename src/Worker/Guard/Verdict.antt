-- ===== src/Worker/Guard/Verdict.antt =====
-- What the flag of a lost lease means for the outcome, in every interleaving.
use sepp_py.Common.{
  Bool-cases, ℤ, Bool, true, false, [], none, some, ◌≡◌, ◌≢◌, ◌⊎◌, inl, inr, refl, arith,
}
use sepp_py.Types.Jobs.{Lease, JobCtx}
use sepp_py.Errors.Exceptions.{base_exception}
use sepp_py.Worker.Client.{QueueClient}
use sepp_py.Worker.Config.{AutoExtend}
use sepp_py.Worker.Heartbeat.{Pulse, beating, lost, died, after_extend}
use sepp_py.Worker.Process.{
  Ending, returned, failed, raised, raised_unprintable, cancelled, escaped, JobOutcome, completed,
  crashed, plain_outcome, finish,
}
use sepp_py.Worker.Guard.{
  over, Guard, start, hear, verdict, Step, ticks, acts, ends, beats, hears, reaps, Steps, here,
  then_step,
}

-- The heartbeat ends with the flag and asks the handler to stop; an outcome is there only when the
-- handler has ended, and the heartbeat with it.
pub record IsSound {W : Type 0} (s : Guard W) : Type 0 where
  pub flagged : (s.is_lost ≡ false) ⊎ ((s.heart ≡ over) × (s.asked ≡ true))
  pub settled :
      (s.outcome ≡ none)
      ⊎ ((e : Ending) × (s.heart ≡ over)
          × (s.ending ≡ some e)
          × (s.outcome ≡ some (verdict s.is_lost e)))

hear-IsSound :
    {W : Type 0} (cfg : AutoExtend) (p : Pulse) (s : Guard W)
    → s.heart ≢ over
    → IsSound s
    → IsSound (hear cfg p s)
unfolding hear
hear-IsSound cfg (beating lease) s h i = record {
  flagged = ground (arith, i.flagged, h);
  settled = ground (arith, i.settled, h);
}
hear-IsSound cfg lost s h i = record {
  flagged = inr (refl, refl);
  settled = ground (arith, i.settled, h);
}
hear-IsSound cfg (died r) s h i = record {
  flagged = ground (arith, i.flagged, h);
  settled = ground (arith, i.settled, h);
}

pub start-IsSound :
    {W : Type 0} (cfg : AutoExtend) (lease : Lease) (clock : ℤ) (w : W)
    → IsSound (start cfg lease clock w)
unfolding start
start-IsSound cfg lease clock w = record { flagged = inl refl; settled = inl refl }

module _ {W : Type 0} (qc : QueueClient W) (ctx : JobCtx) where
  lost_verdict :
      (b : Bool) (e : Ending) (w : W)
      → b ≡ true
      → (finish qc ctx (verdict b e, w) ≡ (completed [], w))
        ⊎ ((e ≡ escaped) × (finish qc ctx (verdict b e, w) ≡ (crashed base_exception, w)))
  unfolding finish verdict
  lost_verdict true escaped w h = inr (refl, refl)
  lost_verdict true returned w h = inl refl
  lost_verdict true (failed e) w h = inl refl
  lost_verdict true (raised text) w h = inl refl
  lost_verdict true raised_unprintable w h = inl refl
  lost_verdict true cancelled w h = inl refl
  lost_verdict false e w h = ground (arith, h)

  kept_verdict :
      (b : Bool) (e : Ending) (w : W)
      → b ≡ false
      → finish qc ctx (verdict b e, w) ≡ finish qc ctx (plain_outcome e, w)
  unfolding verdict
  kept_verdict true e w h = ground (arith, h)
  kept_verdict false e w h = refl

module _ {W : Type 0} {qc : QueueClient W} {cfg : AutoExtend}
    {Acts : W → Lease → W → Lease → Type 0} where
  pub Step-IsSound : {s t : Guard W} → Step qc cfg Acts s t → IsSound s → IsSound t
  Step-IsSound (ticks micros) i = record { flagged = i.flagged; settled = i.settled }
  Step-IsSound (acts w' lease' h a) i = record { flagged = i.flagged; settled = i.settled }
  Step-IsSound (ends e h) i = record { flagged = i.flagged; settled = ground (arith, i.settled, h) }
  Step-IsSound (beats until h due) i = record {
    flagged = ground (arith, i.flagged, h);
    settled = ground (arith, i.settled, h);
  }
  Step-IsSound {s} (hears r h) i =
      hear-IsSound cfg (after_extend s.lease s.clock r) s (λ e. ground (arith, e, h)) i
  Step-IsSound (reaps e h n) i = record {
    flagged = ground (arith, i.flagged);
    settled = inr (e, refl, h, refl);
  }

  Steps-IsSound : {s t : Guard W} → Steps qc cfg Acts s t → IsSound s → IsSound t
  Steps-IsSound here i = i
  Steps-IsSound (then_step run x) i = Step-IsSound x (Steps-IsSound run i)

  -- However a run of a handler is interleaved with its heartbeat, once it has an outcome both have
  -- ended, and what follows is decided by the flag: with it, no call is made and no metric counted
  -- for the job, whose task ends normally, or by the handler's exception that is no `Exception`;
  -- and without it, the job is disposed of by the way the handler ended.
  pub Steps-finish :
      {s : Guard W} (ctx : JobCtx) (lease : Lease) (clock : ℤ) (w : W) (o : JobOutcome)
      → Steps qc cfg Acts (start cfg lease clock w) s
      → s.outcome ≡ some o
      → (e : Ending) × (s.heart ≡ over)
        × (s.ending ≡ some e)
        × (((s.is_lost ≡ true)
              × ((finish qc ctx (o, s.world) ≡ (completed [], s.world))
                  ⊎ ((e ≡ escaped)
                      × (finish qc ctx (o, s.world) ≡ (crashed base_exception, s.world)))))
            ⊎ ((s.is_lost ≡ false)
                × (finish qc ctx (o, s.world) ≡ finish qc ctx (plain_outcome e, s.world))))
  Steps-finish {s} ctx lease clock w o run h =
      let sound = Steps-IsSound run (start-IsSound cfg lease clock w) in
      elim sound.settled [
        | inl n ↦ ground (arith, n, h)
        | inr (e, hb, en, out) ↦
            let same : o ≡ verdict s.is_lost e = ground (arith, out, h) in
            (
              e,
              hb,
              en,
              elim (Bool-cases s.is_lost) [
                | inl l ↦ inl (l, rw same (lost_verdict qc ctx s.is_lost e s.world l))
                | inr k ↦ inr (k, rw same (kept_verdict qc ctx s.is_lost e s.world k))
              ],
            )
      ]
