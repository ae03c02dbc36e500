-- ===== src/Types/Trace/Split.antt =====
-- Splitting at hyphens, and joining the parts again.
use sepp_py.Common.{
  ℕ, List, [], ◌∷◌, ◌++◌, ◌==◌, ◌≡◌, ◌≢◌, refl, ap, ◌∙◌, All, Bool-cases, inl, inr, ==_iff, arith,
}
use sepp_py.Types.Trace.{split_hyphen, cons_field}

abbrev pub join_hyphen : List (List ℕ) → List ℕ
join_hyphen [] = []
join_hyphen (part ∷ []) = part
join_hyphen (part ∷ next ∷ parts) = part ++ b'-' ∷ join_hyphen (next ∷ parts)

join_cons_field :
    (c : ℕ) (parts : List (List ℕ)) → join_hyphen (cons_field c parts) ≡ c ∷ join_hyphen parts
join_cons_field c [] = refl
join_cons_field c (part ∷ []) = refl
join_cons_field c (part ∷ next ∷ parts) = refl

join_nil_field :
    (s : List ℕ) → join_hyphen ([] ∷ split_hyphen s) ≡ b'-' ∷ join_hyphen (split_hyphen s)
unfolding split_hyphen
join_nil_field [] = refl
join_nil_field (c ∷ s) = ground (arith)

pub join-split_hyphen : (s : List ℕ) → join_hyphen (split_hyphen s) ≡ s
unfolding split_hyphen
join-split_hyphen [] = refl
join-split_hyphen (c ∷ s) = elim (Bool-cases (c == b'-')) [
  | inl hyphen ↦ rw hyphen (join_nil_field s ∙ cc ((==_iff c b'-').0 hyphen, join-split_hyphen s))
  | inr other ↦
      rw other (join_cons_field c (split_hyphen s) ∙ ap (λ t. c ∷ t) (join-split_hyphen s))
]

abbrev pub NoHyphen : List ℕ → Type 0
NoHyphen s = All (λ c. c ≢ b'-') s

pub split_hyphen_of_NoHyphen : (s : List ℕ) → NoHyphen s → split_hyphen s ≡ s ∷ []
unfolding split_hyphen
split_hyphen_of_NoHyphen [] h = refl
split_hyphen_of_NoHyphen (c ∷ s) h = ground (arith, split_hyphen_of_NoHyphen s h.1)

pub split_hyphen-append :
    (s t : List ℕ) → NoHyphen s → split_hyphen (s ++ b'-' ∷ t) ≡ s ∷ split_hyphen t
unfolding split_hyphen
split_hyphen-append [] t h = refl
split_hyphen-append (c ∷ s) t h = ground (arith, split_hyphen-append s t h.1)
