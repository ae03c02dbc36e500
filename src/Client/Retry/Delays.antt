-- ===== src/Client/Retry/Delays.antt =====
-- How long `_with_retry` sleeps between its attempts.
use mathlib.Core.List.{append_assoc}
use sepp_py.Common.{
  ℕ, zero, suc, ◌-◌, ◌≤◌, pos_part, true, false, List, [], ◌∷◌, ◌++◌, length, length-append, All,
  All-append, Result, ok, err, ◌≡◌, refl, ap, sym, ◌∙◌, ◌⊎◌, inl, inr, Bool-cases, arith,
  if◌then◌else◌,
}
use sepp_py.Types.Time.{Timedelta}
use sepp_py.Errors.Codes.{CodeSet}
use sepp_py.Errors.Exceptions.{Raised, rpc_error}
use sepp_py.Client.Env.{Env}
use sepp_py.Client.Monad.{M, ◌>>◌, raise, recover}
use sepp_py.Client.Policy.{RetryPolicy, World}
use sepp_py.Client.Retry.{pause, next_backoff, retry_loop, with_retry}

-- What the loop relies on in Python's floats: `min` is no more than its second argument, and a
-- number that is no more than a duration's seconds still is when it is rounded to a duration.
pub record IsOrder (env : Env) (Le : env.Float → env.Float → Type 0) : Type 0 where
  pub min_float_right : (a b : env.Float) → Le (env.min_float a b) b
  pub from_seconds_mono :
      (x : env.Float) (d : Timedelta)
      → Le x (env.total_seconds d)
      → Le (env.total_seconds (env.from_seconds x)) (env.total_seconds d)

module _ (env : Env) (Le : env.Float → env.Float → Type 0) (policy : RetryPolicy env.Float) where
  -- The first backoff, or one that the policy's maximum bounds.
  abbrev IsBackoff : Timedelta → Type 0
  IsBackoff b =
      (b ≡ policy.initial_backoff) ⊎ Le (env.total_seconds b) (env.total_seconds policy.max_backoff)

  -- The seconds of such a backoff, times a random factor if the policy has jitter.
  abbrev pub IsDelay : env.Float → Type 0
  IsDelay delay =
      (b : Timedelta) × IsBackoff b
      × (((policy.jitter ≡ false) × (delay ≡ env.total_seconds b))
          ⊎ ((policy.jitter ≡ true)
              × (n : ℕ) × (delay ≡ env.times (env.total_seconds b) (env.jitter_factor n))))

  -- The sleeps of an outcome, after those of `w`: at most that many, and each as the policy says.
  pub record Delayed {A : Type 0} (most : ℕ) (w : World env) (o : Result Raised A × World env)
      : Type 0 where
    pub slept : List env.Float
    pub few : length slept ≤ most
    pub added : o.1.sleeps ≡ slept ++ w.sleeps
    pub each : All IsDelay slept

  next_backoff-IsBackoff : IsOrder env Le → (b : Timedelta) → IsBackoff (next_backoff env policy b)
  unfolding next_backoff
  next_backoff-IsBackoff laws b =
      inr (laws.from_seconds_mono _ policy.max_backoff (laws.min_float_right _ _))

  pause-IsDelay :
      (b : Timedelta) (w : World env)
      → IsBackoff b
      → (rested : World env) × (delay : env.Float) × (pause env policy b w ≡ (ok tt, rested))
        × (rested.sleeps ≡ delay ∷ w.sleeps)
        × IsDelay delay
  unfolding pause
  pause-IsDelay b w h = elim (Bool-cases policy.jitter) [
    | inl e ↦
        let delay = env.times (env.total_seconds b) (env.jitter_factor w.draws) in
        let rested : World env = record w { sleeps = delay ∷ w.sleeps; draws = suc w.draws } in
        (rested, delay, rw e refl, refl, (b, h, inr (e, w.draws, refl)))
    | inr e ↦
        let delay = env.total_seconds b in
        let rested : World env = record w { sleeps = delay ∷ w.sleeps } in
        (rested, delay, rw e refl, refl, (b, h, inl (e, refl)))
  ]

  module _ {A : Type 0} (laws : IsOrder env Le) (codes : CodeSet) (factory : M (World env) A)
      (awake : (w : World env) → (factory w).1.sleeps ≡ w.sleeps) where
    one_delay :
        (left : ℕ) (w rested : World env) (delay : env.Float) (o : Result Raised A × World env)
        → rested.sleeps ≡ delay ∷ w.sleeps
        → IsDelay delay
        → Delayed left rested o
        → Delayed (suc left) w o
    one_delay left w rested delay o e d rest = record {
      slept = rest.slept ++ (delay ∷ []);
      few = ground (arith, rest.few, length-append rest.slept (delay ∷ []));
      added =
          rest.added
          ∙ ap (λ l. rest.slept ++ l) e
          ∙ sym (append_assoc rest.slept (delay ∷ []) w.sleeps);
      each = All-append IsDelay rest.slept (delay ∷ []) rest.each (d, tt);
    }

    no_delay :
        (most : ℕ) (w : World env) (o : Result Raised A × World env)
        → o.1.sleeps ≡ w.sleeps
        → Delayed most w o
    no_delay most w o e = record { slept = []; few = omega arith; added = e; each = tt }

    step :
        (left : ℕ) (b : Timedelta) (w : World env)
        → IsBackoff b
        → ((w' : World env)
            → Delayed left w'
                (retry_loop env policy codes factory left (next_backoff env policy b) w'))
        → (o : Result Raised A × World env) → o.1.sleeps ≡ w.sleeps
        → Delayed (suc left) w (
            recover
              (λ e.
                if codes e.code
                then (pause env policy b
                    >> retry_loop env policy codes factory left (next_backoff env policy b))
                else raise (rpc_error e))
              o)
    step left b w h ih (ok a, failed) e = no_delay (suc left) w _ e
    step left b w h ih (err (rpc_error r), failed) e = elim (Bool-cases (codes r.code)) [
      | inl yes_ ↦
          let (rested, delay, paused, slept, d) = pause-IsDelay b failed h in
          rw (yes_, paused)
            (one_delay left w rested delay _ (slept ∙ ap (λ l. delay ∷ l) e) d (ih rested))
      | inr no_ ↦ rw no_ (no_delay (suc left) w _ e)
    ]
    step left b w h ih (err _, failed) e = no_delay (suc left) w _ e

    retry_loop-Delayed :
        (left : ℕ) (b : Timedelta) (w : World env)
        → IsBackoff b
        → Delayed left w (retry_loop env policy codes factory left b w)
    unfolding retry_loop
    retry_loop-Delayed zero b w h = no_delay zero w _ (awake w)
    retry_loop-Delayed (suc left) b w h =
        step left b w h
          (λ w'.
            retry_loop-Delayed left (next_backoff env policy b) w' (next_backoff-IsBackoff laws b))
          (factory w) (awake w)

    -- Around calls that do not sleep themselves, `_with_retry` adds at most `max_attempts - 1`
    -- sleeps, none if `max_attempts` is less than 1. Each is the initial backoff or one that
    -- `max_backoff` bounds, times a random factor exactly if the policy has jitter.
    pub with_retry-Delayed :
        (w : World env)
        → Delayed (pos_part policy.max_attempts - 1) w (with_retry env policy codes factory w)
    unfolding with_retry
    with_retry-Delayed w =
        retry_loop-Delayed (pos_part policy.max_attempts - 1) policy.initial_backoff w (inl refl)
