-- ===== src/Client/Enqueue/Exchange.antt =====
-- Batches row by row, and what the two enqueue calls that succeed have sent and received.
use sepp_py.Common.{
  List, [], ◌∷◌, map, length, length-traverse, String, Result, ok, traverse, >>=-eq-ok, ◌>>=◌, ◌≡◌,
  ◌≢◌, refl, arith, inl, inr, Result-cases,
}
use sepp_py.Types.Requests.{EnqueueRequest}
use sepp_py.Wire.Messages.{PbEnqueueRequest}
use sepp_py.Errors.Exceptions.{Raised}
use sepp_py.Convert.Outgoing.{enqueue_request_to_pb}
use sepp_py.Client.Env.{Env, Rpc}
use sepp_py.Client.Monad.{M, Outcome-cases}
use sepp_py.Client.Policy.{Client, World}
use sepp_py.Client.Enqueue.{transmit, send_jobs}
use sepp_py.Client.Enqueue.Traced.{traced, inject_trace_into_jobs-traced}

-- Four lists of one length, with a relation between the entries at each place.
pub data Rows {A B C D : Type 0} (R : A → B → C → D → Type 0)
    : List A → List B → List C → List D → Type 0 where
  no_rows : Rows R [] [] [] []
  row :
      {a : A} {b : B} {c : C} {d : D} {xs : List A} {ys : List B} {zs : List C} {ws : List D}
      → R a b c d
      → Rows R xs ys zs ws
      → Rows R (a ∷ xs) (b ∷ ys) (c ∷ zs) (d ∷ ws)

module _ {A B C D : Type 0} {R : A → B → C → D → Type 0} where
  pub Rows-map :
      {S : A → B → C → D → Type 0} (h : B → B)
      (weaken : (a : A) (b : B) (c : C) (d : D) → R a b c d → S a (h b) c d) {xs : List A}
      {ys : List B} {zs : List C} {ws : List D}
      → Rows R xs ys zs ws
      → Rows S xs (map h ys) zs ws
  Rows-map h weaken no_rows = no_rows
  Rows-map h weaken (row {a} {b} {c} {d} r rest) = row (weaken a b c d r) (Rows-map h weaken rest)

traverse-cons :
    {A B : Type 0} (f : A → Result Raised B) (x : A) (xs : List A) (y : B) (ys : List B)
    → traverse f (x ∷ xs) ≡ ok (y ∷ ys)
    → (f x ≡ ok y) × (traverse f xs ≡ ok ys)
traverse-cons f x xs y ys made =
    let (y', e, rest) = >>=-eq-ok (f x) (λ y. traverse f xs >>= λ ys. ok (y ∷ ys)) made in
    let (ys', es, same) = >>=-eq-ok (traverse f xs) (λ ys. ok (y' ∷ ys)) rest in (cc, cc)

module _ {A B C D : Type 0} (f : A → Result Raised B) (g : C → Result Raised D) where
  -- Two comprehensions that gave values, over as many entries.
  pub Rows-traverse :
      (xs : List A) (ys : List B) (zs : List C) (ws : List D)
      → traverse f xs ≡ ok ys
      → length zs ≡ length ys
      → traverse g zs ≡ ok ws
      → Rows (λ x y z w. (f x ≡ ok y) × (g z ≡ ok w)) xs ys zs ws
  Rows-traverse [] [] [] [] made counted read = no_rows
  Rows-traverse (x ∷ xs) (y ∷ ys) (z ∷ zs) (w ∷ ws) made counted read =
      let (e, made') = traverse-cons f x xs y ys made in
      let (e', read') = traverse-cons g z zs w ws read in
      row (e, e') (Rows-traverse xs ys zs ws made' (ground (arith, counted)) read')
  Rows-traverse xs ys zs ws made counted read =
      ground (arith, counted, length-traverse f xs made, length-traverse g zs read)

pub traverse-ok :
    {A B : Type 0} (f : A → B) (xs : List A)
    → ◌≡◌ {A = Result Raised (List B)} (traverse (λ x. ok (f x)) xs) (ok (map f xs))
traverse-ok f [] = refl
traverse-ok f (x ∷ xs) = rw (traverse-ok f xs) refl

-- What a successful call has sent, its response, and the step that reads it.
module _ (env : Env) {Resp A : Type 0} (client : Client env) (span : String)
    (method : Rpc env.Server env.Float (List PbEnqueueRequest) Resp) (jobs : List EnqueueRequest)
    (k : List PbEnqueueRequest → Resp → M (World env) A) where
  pub record Exchange (w : World env) (a : A) (w' : World env) : Type 0 where
    pub converted : List PbEnqueueRequest
    pub resp : Resp
    pub answered : World env
    pub made : traverse (enqueue_request_to_pb env.runtime) jobs ≡ ok converted
    pub some_job : jobs ≢ []
    pub sent :
        transmit env client span method (map (traced env span) converted) w ≡ (ok resp, answered)
    pub read : k (map (traced env span) converted) resp answered ≡ (ok a, w')

  pub send_jobs-Exchange :
      (w : World env) {a : A} {w' : World env}
      → send_jobs env client span method jobs k w ≡ (ok a, w')
      → Exchange w a w'
  unfolding send_jobs
  send_jobs-Exchange w h = elim (Result-cases (traverse (enqueue_request_to_pb env.runtime) jobs)) [
    | inr (r, e) ↦ cc (rw (e, send_jobs) at h)
    | inl ([], e) ↦ cc (rw (e, send_jobs) at h)
    | inl (j ∷ js, e) ↦
        let h' = rw (e, send_jobs) at h in
        elim (Outcome-cases (transmit env client span method (map (traced env span) (j ∷ js)) w)) [
          | inr (r, w₁, f) ↦ cc (rw (inject_trace_into_jobs-traced env span (j ∷ js), f) at h')
          | inl (resp, w₁, f) ↦ record {
            converted = j ∷ js;
            resp = resp;
            answered = w₁;
            made = e;
            some_job = λ none_left.
                ground
                  (arith, length-traverse (enqueue_request_to_pb env.runtime) jobs e, none_left);
            sent = f;
            read = rw (inject_trace_into_jobs-traced env span (j ∷ js), f) at h';
          }
        ]
  ]
