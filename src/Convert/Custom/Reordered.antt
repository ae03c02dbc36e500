-- ===== src/Convert/Custom/Reordered.antt =====
-- The `custom` map of a job when the protobuf map gives its entries in another order.
use sepp_py.Common.{
  [], ◌∷◌, String, str_eq, eq_iff, Dict, get, put, Option, none, some, ok, Bool-cases, ◌≡◌, refl,
  sym, ap, ◌∙◌, arith, inl, inr, if◌then◌else◌,
}
use sepp_py.Types.Requests.{Primitive}
use sepp_py.Wire.Messages.{PbPrimitiveValue}
use sepp_py.Wire.Runtime.{Runtime, IsLawful}
use sepp_py.Convert.Values.{primitive_from_pb}
use sepp_py.Convert.Outgoing.{custom_to_pb}
use sepp_py.Convert.Incoming.{custom_from_pb}
use sepp_py.Convert.Custom.{Distinct, Sent, Fresh-nil, custom_to_pb-Sent}

-- Two dicts that answer every key alike, in whatever order they hold their entries.
abbrev pub SameMap : {V : Type 0} → Dict V → Dict V → Type 0
SameMap m n = (k : String) → get k m ≡ get k n

-- Every value of a protobuf map is set.
abbrev AllSet : Dict PbPrimitiveValue → Type 0
AllSet m =
    (k : String) (pv : PbPrimitiveValue)
    → get k m ≡ some pv
    → (v : Primitive) × (primitive_from_pb pv ≡ some v)

-- What a key gives once the entries of a protobuf map are put over another dict.
abbrev over : Option PbPrimitiveValue → Option Primitive → Option Primitive
over (some pv) o = primitive_from_pb pv
over none o = o

get-put :
    {V : Type 0} (j k : String) (v : V) (m : Dict V)
    → get j (put k v m) ≡ (if str_eq k j then some v else get j m)
get-put j k v [] = refl
get-put j k v ((i, w) ∷ m) = ground (arith, get-put j k v m, eq_iff i k, eq_iff k j, eq_iff i j)

AllSet-tail :
    (k : String) (pv : PbPrimitiveValue) (items : Dict PbPrimitiveValue)
    → get k items ≡ none
    → AllSet ((k, pv) ∷ items)
    → AllSet items
AllSet-tail k pv items e h j pv' g = elim (Bool-cases (str_eq k j)) [
  | inr ne ↦ h j pv' (rw ne g)
  | inl eq ↦ let same : k ≡ j = (eq_iff k j).0 eq in cc
]

over-put :
    (k j : String) (pv : PbPrimitiveValue) (v : Primitive) (items : Dict PbPrimitiveValue)
    (acc : Dict Primitive)
    → get k items ≡ none
    → primitive_from_pb pv ≡ some v
    → over (get j items) (get j (put k v acc)) ≡ over (get j ((k, pv) ∷ items)) (get j acc)
over-put k j pv v items acc n e = elim (Bool-cases (str_eq k j)) [
  | inr ne ↦ rw (get-put j k v acc, ne) refl
  | inl eq ↦
      let gone : get j items ≡ none = ap (λ i. get i items) (sym ((eq_iff k j).0 eq)) ∙ n in
      rw (get-put j k v acc, eq, gone) (sym e)
]

custom_from_pb-over :
    (acc : Dict Primitive) (items : Dict PbPrimitiveValue)
    → Distinct items
    → AllSet items
    → (d : Dict Primitive) × (custom_from_pb acc items ≡ ok d)
      × ((j : String) → get j d ≡ over (get j items) (get j acc))
unfolding custom_from_pb
custom_from_pb-over acc [] d h = (acc, refl, λ j. refl)
custom_from_pb-over acc ((k, pv) ∷ items) d h =
    let (v, e) = h k pv (rw ((eq_iff k k).1 refl) refl) in
    let (out, made, same) =
      custom_from_pb-over (put k v acc) items d.1 (AllSet-tail k pv items d.0 h) in
    (out, rw e made, λ j. same j ∙ over-put k j pv v items acc d.0 e)

Sent-over :
    (n : Dict PbPrimitiveValue) (items : Dict Primitive)
    → Sent n items
    → ((k : String) → over (get k n) none ≡ get k items) × AllSet n
Sent-over [] [] s = (λ k. refl, λ k pv g. cc)
Sent-over ((k, pv) ∷ n) ((i, v) ∷ items) s =
    let (same, set) = Sent-over n items s.2 in
    (
      λ j. elim (Bool-cases (str_eq i j)) [
        | inl eq ↦ rw (s.0, eq) s.1
        | inr ne ↦ rw (s.0, ne) (same j)
      ],
      λ j pv' g. elim (Bool-cases (str_eq i j)) [
        | inl eq ↦ let here : some pv ≡ some pv' = rw (s.0, eq) at g in (v, cc (s.1, here))
        | inr ne ↦ set j pv' (rw (s.0, ne) at g)
      ],
    )
Sent-over _ _ s = absurd s

-- A custom map with distinct keys that can be sent is decoded from any protobuf map with the same
-- entries, whatever order that map gives them in: the decoded dict answers every key as the
-- original does.
pub custom_from_pb-SameMap :
    (rt : Runtime) (custom : Dict Primitive) (m n : Dict PbPrimitiveValue)
    → IsLawful rt
    → Distinct custom
    → custom_to_pb rt [] custom ≡ ok m
    → Distinct n
    → SameMap n m
    → (d : Dict Primitive) × (custom_from_pb [] n ≡ ok d) × SameMap d custom
custom_from_pb-SameMap rt custom m n law distinct h once same =
    let (wire, e, s) =
      custom_to_pb-Sent rt law [] custom m distinct (Fresh-nil PbPrimitiveValue custom) h in
    let (looked, set) = Sent-over wire custom s in
    let alike : SameMap n wire = rw e at same in
    let (d, made, found) = custom_from_pb-over [] n once (λ k pv g. set k pv (sym (alike k) ∙ g)) in
    (d, made, λ k. found k ∙ ap (λ o. over o none) (alike k) ∙ looked k)
