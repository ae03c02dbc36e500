-- ===== src/Client/Enqueue/Single.antt =====
-- `enqueue` against a batch of one job.
use sepp_py.Common.{[], ◌∷◌, ok, err, ◌≡◌, ◌⊎◌, refl, inl, inr, arith}
use sepp_py.Types.Requests.{EnqueueRequest, EnqueueAck}
use sepp_py.Errors.Rejection.{JobRejection}
use sepp_py.Errors.Exceptions.{Raised, sepp, job_rejected}
use sepp_py.Client.Env.{Env}
use sepp_py.Client.Monad.{Outcome-cases}
use sepp_py.Client.Policy.{Client, World}
use sepp_py.Client.Enqueue.{acked, refused, enqueue_batch, enqueue}
use sepp_py.Client.Enqueue.Counts.{enqueue_batch-counts}

-- `enqueue` does what a batch of the one job does: it returns the acknowledgement that the batch
-- gives, raises JobRejectedError for the rejection that the batch gives, and raises what the batch
-- raises. There is no fourth case.
pub enqueue_cases :
    (env : Env) (client : Client env) (job : EnqueueRequest) (w : World env)
    → ((a : EnqueueAck) × (w' : World env) × (enqueue_batch env client (job ∷ []) w
          ≡ (ok (acked a ∷ []), w'))
        × (enqueue env client job w ≡ (ok a, w')))
      ⊎ ((x : JobRejection) × (w' : World env) × (enqueue_batch env client (job ∷ []) w
            ≡ (ok (refused x ∷ []), w'))
          × (enqueue env client job w ≡ (err (sepp (job_rejected x)), w')))
      ⊎ ((r : Raised) × (w' : World env) × (enqueue_batch env client (job ∷ []) w ≡ (err r, w'))
          × (enqueue env client job w ≡ (err r, w')))
unfolding enqueue
enqueue_cases env client job w = elim (Outcome-cases (enqueue_batch env client (job ∷ []) w)) [
  | inr (r, w₁, f) ↦ inr (inr (r, w₁, f, rw (f, enqueue) refl))
  | inl ([], w₁, f) ↦
      let counted = enqueue_batch-counts env client (job ∷ []) w [] w₁ f in ground (arith, counted)
  | inl (acked a ∷ [], w₁, f) ↦ inl (a, w₁, f, rw (f, enqueue) refl)
  | inl (refused x ∷ [], w₁, f) ↦ inr (inl (x, w₁, f, rw (f, enqueue) refl))
  | inl (o ∷ p ∷ rest, w₁, f) ↦
      let counted = enqueue_batch-counts env client (job ∷ []) w (o ∷ p ∷ rest) w₁ f in
      ground (arith, counted)
]
