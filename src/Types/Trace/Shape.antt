-- ===== src/Types/Trace/Shape.antt =====
-- What the check of a `traceparent` accepts, described without the code: the W3C shape.
use sepp_py.Common.{
  ℕ, suc, ◌==◌, ◌≤◌, List, [], ◌∷◌, ◌++◌, String, ◌≡◌, ◌≢◌, ◌↔◌, ◌⊎◌, refl, ap, sym, ◌∙◌, ok,
  raise_if, ◌>>◌, length, ◌≡⟨◌⟩◌, ◌∎, All, all, Bool, true, false, arith,
}
use sepp_py.Types.Faults.{
  bad_version, bad_trace_id, zero_trace_id, bad_span_id, zero_span_id, bad_flags,
}
use sepp_py.Types.Trace.{
  codes, is_hex, is_zeros, misfit, split_hyphen, check_fields, check_parts, validate_traceparent,
}
use sepp_py.Types.Trace.Split.{
  NoHyphen, join_hyphen, join-split_hyphen, split_hyphen_of_NoHyphen, split_hyphen-append,
}

abbrev pub HexDigit : ℕ → Type 0
HexDigit c = ((b'0' ≤ c) × (c ≤ b'9')) ⊎ ((b'a' ≤ c) × (c ≤ b'f')) ⊎ ((b'A' ≤ c) × (c ≤ b'F'))

-- `n` hexadecimal digits.
abbrev pub HexField : ℕ → List ℕ → Type 0
HexField n s = (length s ≡ n) × All HexDigit s

-- Some character is not the digit zero.
abbrev pub NonZero : List ℕ → Type 0
NonZero [] = ⊥
NonZero (c ∷ s) = (c ≢ b'0') ⊎ NonZero s

pub record IsTraceparent (s : List ℕ) : Type 0 where
  pub version : List ℕ
  pub trace_id : List ℕ
  pub span_id : List ℕ
  pub flags : List ℕ
  pub joined : s ≡ version ++ b'-' ∷ (trace_id ++ b'-' ∷ (span_id ++ b'-' ∷ flags))
  pub version_fits : HexField 2 version
  pub trace_id_fits : HexField 32 trace_id
  pub trace_id_nonzero : NonZero trace_id
  pub span_id_fits : HexField 16 span_id
  pub span_id_nonzero : NonZero span_id
  pub flags_fits : HexField 2 flags

is_hex_iff : (s : List ℕ) → (is_hex s ≡ true) ↔ All HexDigit s
unfolding is_hex
is_hex_iff [] = ground arith
is_hex_iff (c ∷ s) = ground (arith, is_hex_iff s)

misfit_iff : (n : ℕ) (s : List ℕ) → (misfit n s ≡ false) ↔ HexField n s
misfit_iff n s = ground (arith, is_hex_iff s)

all_zeros_iff : (s : List ℕ) → (all (λ d. d == b'0') s ≡ false) ↔ NonZero s
all_zeros_iff [] = ground arith
all_zeros_iff (c ∷ s) = ground (arith, all_zeros_iff s)

is_zeros_iff : (n : ℕ) (s : List ℕ) → HexField (suc n) s → (is_zeros s ≡ false) ↔ NonZero s
unfolding is_zeros
is_zeros_iff n [] h = ground arith
is_zeros_iff n (c ∷ s) h = ground (arith, all_zeros_iff s)

HexField-NoHyphen : (s : List ℕ) → All HexDigit s → NoHyphen s
HexField-NoHyphen [] h = tt
HexField-NoHyphen (c ∷ s) h = (ground arith, HexField-NoHyphen s h.1)

-- The four fields as the checks see them.
abbrev FieldsFit : List ℕ → List ℕ → List ℕ → List ℕ → Type 0
FieldsFit version trace_id span_id flags =
    HexField 2 version
    × HexField 32 trace_id
    × NonZero trace_id
    × HexField 16 span_id
    × NonZero span_id
    × HexField 2 flags

ok_tests :
    (a b c d e f : Bool)
    → ((do
      raise_if a bad_version
      raise_if b bad_trace_id
      raise_if c zero_trace_id
      raise_if d bad_span_id
      raise_if e zero_span_id
      raise_if f bad_flags)
        ≡ ok tt)
      ↔ ((a ≡ false) × (b ≡ false) × (c ≡ false) × (d ≡ false) × (e ≡ false) × (f ≡ false))
ok_tests a b c d e f = ground arith

check_fields_iff : (v t s f : List ℕ) → (check_fields v t s f ≡ ok tt) ↔ FieldsFit v t s f
unfolding check_fields
check_fields_iff v t s f = ground (
  arith,
  ok_tests (misfit 2 v) (misfit 32 t) (is_zeros t) (misfit 16 s) (is_zeros s) (misfit 2 f),
  misfit_iff 2 v,
  misfit_iff 32 t,
  misfit_iff 16 s,
  misfit_iff 2 f,
  is_zeros_iff 31 t,
  is_zeros_iff 15 s,
)

check_parts-four :
    (parts : List (List ℕ))
    → check_parts parts ≡ ok tt
    → (v t s f : List ℕ) × (parts ≡ v ∷ t ∷ s ∷ f ∷ []) × (check_fields v t s f ≡ ok tt)
unfolding check_parts
check_parts-four (v ∷ t ∷ s ∷ f ∷ []) h = (v, t, s, f, refl, h)
check_parts-four _ h = cc

IsTraceparent-of_parts :
    (x v t s f : List ℕ) → split_hyphen x ≡ v ∷ t ∷ s ∷ f ∷ [] → FieldsFit v t s f → IsTraceparent x
IsTraceparent-of_parts x v t s f e h = record {
  version = v;
  trace_id = t;
  span_id = s;
  flags = f;
  joined = sym (join-split_hyphen x) ∙ ap join_hyphen e;
  version_fits = h.0;
  trace_id_fits = h.1;
  trace_id_nonzero = h.2;
  span_id_fits = h.3;
  span_id_nonzero = h.4;
  flags_fits = h.5;
}

split-IsTraceparent :
    (x : List ℕ) (w : IsTraceparent x)
    → split_hyphen x ≡ w.version ∷ w.trace_id ∷ w.span_id ∷ w.flags ∷ []
split-IsTraceparent x w =
    split_hyphen x
    ≡⟨ ap split_hyphen w.joined ⟩ split_hyphen (v ++ b'-' ∷ (t ++ b'-' ∷ (s ++ b'-' ∷ f)))
    ≡⟨ split_hyphen-append v (t ++ b'-' ∷ (s ++ b'-' ∷ f)) (HexField-NoHyphen v w.version_fits.1) ⟩
      v ∷ split_hyphen (t ++ b'-' ∷ (s ++ b'-' ∷ f))
    ≡⟨ ap (λ r. v ∷ r)
        (split_hyphen-append t (s ++ b'-' ∷ f) (HexField-NoHyphen t w.trace_id_fits.1)) ⟩
      v ∷ t ∷ split_hyphen (s ++ b'-' ∷ f)
    ≡⟨ ap (λ r. v ∷ t ∷ r) (split_hyphen-append s f (HexField-NoHyphen s w.span_id_fits.1)) ⟩
      v ∷ t ∷ s ∷ split_hyphen f
    ≡⟨ ap (λ r. v ∷ t ∷ s ∷ r) (split_hyphen_of_NoHyphen f (HexField-NoHyphen f w.flags_fits.1)) ⟩
      v ∷ t ∷ s ∷ f ∷ [] ∎
  where
    open w use {version as v, trace_id as t, span_id as s, flags as f}

-- A `traceparent` is accepted exactly when it is four hexadecimal fields of 2, 32, 16 and 2
-- digits with hyphens between them, the second and the third not all zeros.
pub validate_traceparent_iff :
    (traceparent : String)
    → (validate_traceparent traceparent ≡ ok tt) ↔ IsTraceparent (codes traceparent)
unfolding validate_traceparent check_parts
validate_traceparent_iff traceparent = (accepted, complete)
  where
    x : List ℕ
    x = codes traceparent

    accepted : check_parts (split_hyphen x) ≡ ok tt → IsTraceparent x
    accepted h =
        let (v, t, s, f, e, fits) = check_parts-four (split_hyphen x) h in
        IsTraceparent-of_parts x v t s f e ((check_fields_iff v t s f).0 fits)

    complete : IsTraceparent x → check_parts (split_hyphen x) ≡ ok tt
    complete w = rw (split-IsTraceparent x w) (
        (check_fields_iff w.version w.trace_id w.span_id w.flags).1 (
          w.version_fits, w.trace_id_fits, w.trace_id_nonzero, w.span_id_fits, w.span_id_nonzero,
          w.flags_fits,
        ))
