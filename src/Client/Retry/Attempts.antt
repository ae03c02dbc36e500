-- ===== src/Client/Retry/Attempts.antt =====
-- How many attempts `_with_retry` makes, and which attempt's outcome it passes on.
use sepp_py.Common.{
  ℕ, zero, suc, ◌-◌, ◌≤◌, pos_part, true, false, ◌∷◌, Result, ok, err, ◌≡◌, refl, ap, ◌⊎◌, inl, inr,
  Bool-cases, arith, if◌then◌else◌,
}
use sepp_py.Types.Time.{Timedelta}
use sepp_py.Errors.Codes.{RpcError, CodeSet}
use sepp_py.Errors.Exceptions.{Raised, rpc_error}
use sepp_py.Client.Env.{Env}
use sepp_py.Client.Monad.{M, ◌>>◌, raise, recover}
use sepp_py.Client.Policy.{RetryPolicy, World}
use sepp_py.Client.Retry.{pause, next_backoff, retry_loop, with_retry}

-- One sleep, which leaves the server alone.
abbrev pub Slept : (env : Env) → World env → World env → Type 0
Slept env w w' = (delay : env.Float) × (w'.sleeps ≡ delay ∷ w.sleeps) × (w'.server ≡ w.server)

-- An outcome that would not be retried.
abbrev pub IsFinal : {W A : Type 0} → CodeSet → Result Raised A × W → Type 0
IsFinal codes (err (rpc_error e), w) = codes e.code ≡ false
IsFinal codes _ = Unit

module _ (env : Env) {A : Type 0} (codes : CodeSet) (factory : M (World env) A) where
  -- `factory` is called `n + 1` times from the world `w`: each call but the last fails with a code
  -- of the set and is followed by one sleep, and the last one has the outcome `o`.
  abbrev pub Attempts : ℕ → World env → Result Raised A × World env → Type 0
  Attempts zero w o = factory w ≡ o
  Attempts (suc n) w o =
      (e : RpcError) × (failed : World env) × (rested : World env) × (factory w
        ≡ (err (rpc_error e), failed))
      × (codes e.code ≡ true)
      × Slept env failed rested
      × Attempts n rested o

  -- The outcome is that of attempt `n + 1` of at most `left + 1`, and is a retryable failure only
  -- if the attempts are used up.
  abbrev pub Tried : ℕ → World env → Result Raised A × World env → Type 0
  Tried left w o = (n : ℕ) × (n ≤ left) × Attempts n w o × (IsFinal codes o ⊎ (n ≡ left))

pause-Slept :
    (env : Env) (policy : RetryPolicy env.Float) (backoff : Timedelta) (w : World env)
    → (rested : World env) × (pause env policy backoff w ≡ (ok tt, rested)) × Slept env w rested
unfolding pause
pause-Slept env policy backoff w = elim (Bool-cases policy.jitter) [
  | inl e ↦
      let delay = env.times (env.total_seconds backoff) (env.jitter_factor w.draws) in
      let rested : World env = record w { sleeps = delay ∷ w.sleeps; draws = suc w.draws } in
      (rested, rw e refl, (delay, refl, refl))
  | inr e ↦
      let delay = env.total_seconds backoff in
      let rested : World env = record w { sleeps = delay ∷ w.sleeps } in
      (rested, rw e refl, (delay, refl, refl))
]

module _ (env : Env) {A : Type 0} (policy : RetryPolicy env.Float) (codes : CodeSet)
    (factory : M (World env) A) where
  -- After a first failure with a code of the set, and the loop for the rest.
  Tried-suc :
      (left : ℕ) (w : World env) (e : RpcError) (failed rested : World env)
      (o : Result Raised A × World env)
      → factory w ≡ (err (rpc_error e), failed)
      → codes e.code ≡ true
      → Slept env failed rested
      → Tried env codes factory left rested o
      → Tried env codes factory (suc left) w o
  Tried-suc left w e failed rested o h c s (n, le, a, last) =
      (suc n, omega arith, (e, failed, rested, h, c, s, a), later last)
    where
      later : IsFinal codes o ⊎ (n ≡ left) → IsFinal codes o ⊎ (suc n ≡ suc left)
      later (inl x) = inl x
      later (inr x) = inr (ap suc x)

  step :
      (left : ℕ) (backoff : Timedelta) (w : World env)
      → ((w' : World env)
          → Tried env codes factory left w'
              (retry_loop env policy codes factory left (next_backoff env policy backoff) w'))
      → (o : Result Raised A × World env) → factory w ≡ o
      → Tried env codes factory (suc left) w (
          recover
            (λ e.
              if codes e.code
              then (pause env policy backoff
                  >> retry_loop env policy codes factory left (next_backoff env policy backoff))
              else raise (rpc_error e))
            o)
  step left backoff w ih (ok a, failed) h = (0, omega arith, h, inl tt)
  step left backoff w ih (err (rpc_error e), failed) h = elim (Bool-cases (codes e.code)) [
    | inl yes_ ↦
        let (rested, paused, slept) = pause-Slept env policy backoff failed in
        rw (yes_, paused) (Tried-suc left w e failed rested _ h yes_ slept (ih rested))
    | inr no_ ↦ rw no_ (0, omega arith, h, inl no_)
  ]
  step left backoff w ih (err _, failed) h = (0, omega arith, h, inl tt)

  retry_loop-Tried :
      (left : ℕ) (backoff : Timedelta) (w : World env)
      → Tried env codes factory left w (retry_loop env policy codes factory left backoff w)
  unfolding retry_loop
  retry_loop-Tried zero backoff w = (0, omega arith, refl, inr refl)
  retry_loop-Tried (suc left) backoff w =
      step left backoff w (λ w'. retry_loop-Tried left (next_backoff env policy backoff) w')
        (factory w) refl

  pub with_retry-Tried :
      (w : World env)
      → Tried env codes factory
          (pos_part policy.max_attempts - 1)
          w
          (with_retry env policy codes factory w)
  unfolding with_retry
  with_retry-Tried w = retry_loop-Tried (pos_part policy.max_attempts - 1) policy.initial_backoff w
