-- ===== src/Convert/Custom.antt =====
-- The `custom` map on its way to the server and back.
pub mod Reordered
use sepp_py.Common.{
  [], ◌∷◌, ◌++◌, String, str_eq, eq_iff, Dict, get, put, none, some, ok, ◌≡◌, refl, ap, ◌∙◌, arith,
  inl, inr, false, >>=-eq-ok, Option-cases,
}
use mathlib.Core.List.{append_assoc, append-nil}
use sepp_py.Types.Requests.{Primitive}
use sepp_py.Wire.Messages.{PbPrimitiveValue}
use sepp_py.Wire.Runtime.{Runtime, IsLawful}
use sepp_py.Convert.Values.{primitive_to_pb, primitive_from_pb}
use sepp_py.Convert.Outgoing.{custom_to_pb}
use sepp_py.Convert.Incoming.{custom_from_pb}

-- A value that can be sent comes back unchanged, with its type.
primitive_from_pb-primitive_to_pb :
    (rt : Runtime) (value : Primitive) (pv : PbPrimitiveValue)
    → IsLawful rt
    → primitive_to_pb rt value ≡ ok pv
    → primitive_from_pb pv ≡ some value
unfolding primitive_to_pb primitive_from_pb
primitive_from_pb-primitive_to_pb rt (Primitive.int v) pv law h = elim (Option-cases (rt.int64 v)) [
  | inl e ↦ ground arith
  | inr (n, e) ↦ ground (arith, law.int64_exact v n e)
]
primitive_from_pb-primitive_to_pb rt (Primitive.str s) pv law h = ground arith
primitive_from_pb-primitive_to_pb rt _ pv law h = ground arith

-- No two entries have the same key, as in every dict.
abbrev pub Distinct : {V : Type 0} → Dict V → Type 0
Distinct [] = Unit
Distinct ((k, v) ∷ m) = (get k m ≡ none) × Distinct m

-- No key of the second map is in the first.
abbrev pub Fresh : {V W : Type 0} → Dict V → Dict W → Type 0
Fresh acc [] = Unit
Fresh acc ((k, v) ∷ m) = (get k acc ≡ none) × Fresh acc m

put-fresh :
    {V : Type 0} (k : String) (v : V) (m : Dict V) → get k m ≡ none → put k v m ≡ m ++ (k, v) ∷ []
put-fresh k v [] h = refl
put-fresh k v ((j, w) ∷ m) h = ground (arith, put-fresh k v m)

get-append_fresh :
    {V : Type 0} (k j : String) (v : V) (m : Dict V)
    → get k m ≡ none
    → str_eq j k ≡ false
    → get k (m ++ (j, v) ∷ []) ≡ none
get-append_fresh k j v [] h ne = ground arith
get-append_fresh k j v ((i, w) ∷ m) h ne = ground (arith, get-append_fresh k j v m)

Fresh-snoc :
    {V W : Type 0} (acc : Dict V) (j : String) (v : V) (items : Dict W)
    → Fresh acc items
    → get j items ≡ none
    → Fresh (acc ++ (j, v) ∷ []) items
Fresh-snoc acc j v [] h e = tt
Fresh-snoc acc j v ((k, w) ∷ items) h e = (
  get-append_fresh k j v acc h.0 (ground (arith, eq_iff j k, eq_iff k j)),
  Fresh-snoc acc j v items h.1 (ground arith),
)

-- The same keys in the same order, each with a value that is read back as the other map's.
abbrev pub Sent : Dict PbPrimitiveValue → Dict Primitive → Type 0
Sent [] [] = Unit
Sent ((k, pv) ∷ n) ((j, v) ∷ m) = (k ≡ j) × (primitive_from_pb pv ≡ some v) × Sent n m
Sent _ _ = ⊥

pub custom_to_pb-Sent :
    (rt : Runtime)
    → IsLawful rt
    → (acc : Dict PbPrimitiveValue) (items : Dict Primitive) (m : Dict PbPrimitiveValue)
    → Distinct items
    → Fresh acc items
    → custom_to_pb rt acc items ≡ ok m
    → (n : Dict PbPrimitiveValue) × (m ≡ acc ++ n) × Sent n items
unfolding custom_to_pb
custom_to_pb-Sent rt law acc [] m d f h = ([], ground (arith, append-nil acc), tt)
custom_to_pb-Sent rt law acc ((k, v) ∷ items) m d f h =
    let (pv, sent, rest) =
      >>=-eq-ok (primitive_to_pb rt v) (λ pv. custom_to_pb rt (put k pv acc) items) h in
    let (n, e, s) =
      custom_to_pb-Sent rt law (acc ++ (k, pv) ∷ []) items m d.1 (Fresh-snoc acc k pv items f.1 d.0)
        (rw (← put-fresh k pv acc f.0) rest) in
    (
      (k, pv) ∷ n,
      e ∙ append_assoc acc ((k, pv) ∷ []) n,
      (refl, primitive_from_pb-primitive_to_pb rt v pv law sent, s),
    )

custom_from_pb-Sent :
    (acc : Dict Primitive) (n : Dict PbPrimitiveValue) (items : Dict Primitive)
    → Distinct items
    → Fresh acc items
    → Sent n items
    → custom_from_pb acc n ≡ ok (acc ++ items)
unfolding custom_from_pb
custom_from_pb-Sent acc [] [] d f s = ground (arith, append-nil acc)
custom_from_pb-Sent acc ((k, pv) ∷ n) ((j, v) ∷ items) d f s =
    rw (s.1, s.0, put-fresh j v acc f.0)
      (custom_from_pb-Sent (acc ++ (j, v) ∷ []) n items d.1 (Fresh-snoc acc j v items f.1 d.0) s.2
        ∙ ap ok (append_assoc acc ((j, v) ∷ []) items))
custom_from_pb-Sent acc _ _ d f s = absurd s

pub Fresh-nil : (V : Type 0) {W : Type 0} (items : Dict W) → Fresh {V = V} [] items
Fresh-nil V [] = tt
Fresh-nil V (i ∷ items) = (refl, Fresh-nil V items)

-- A map whose values can all be sent comes back unchanged: keys, values, types and order.
pub custom_from_pb-custom_to_pb :
    (rt : Runtime) (custom : Dict Primitive) (m : Dict PbPrimitiveValue)
    → IsLawful rt
    → Distinct custom
    → custom_to_pb rt [] custom ≡ ok m
    → custom_from_pb [] m ≡ ok custom
custom_from_pb-custom_to_pb rt custom m law d h =
    let (n, e, s) = custom_to_pb-Sent rt law [] custom m d (Fresh-nil PbPrimitiveValue custom) h in
    rw e (custom_from_pb-Sent [] n custom d (Fresh-nil Primitive custom) s)
