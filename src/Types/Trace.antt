-- ===== src/Types/Trace.antt =====
-- `TraceContext` and the check of its `traceparent`, on the code points of the text.
pub mod Split
pub mod Shape
use Prim.Native.Char.{code}
use sepp_py.Common.{
  ℕ, Bool, false, not, ◌&&◌, ◌||◌, leb, ◌==◌, if◌then◌else◌, all, length, List, [], ◌∷◌, String,
  Option, Result, ok, err, ◌>>◌, raise_if, map_err,
}
use sepp_py.Types.Faults.{
  TraceFault, wrong_field_count, bad_version, bad_trace_id, zero_trace_id, bad_span_id,
  zero_span_id, bad_flags, ValueError, trace_context_error,
}

abbrev pub codes : String → List ℕ
codes String.[] = []
codes (String.◌∷◌ c s) = code c ∷ codes s

-- `c in "0123456789abcdefABCDEF"` for one character.
abbrev pub is_hex_digit : ℕ → Bool
is_hex_digit c =
    (leb b'0' c && leb c b'9') || (leb b'a' c && leb c b'f') || (leb b'A' c && leb c b'F')

unfoldable pub is_hex : List ℕ → Bool
is_hex s = all is_hex_digit s

-- `set(s) == {"0"}`
unfoldable pub is_zeros : List ℕ → Bool
is_zeros [] = false
is_zeros (c ∷ s) = c == b'0' && all (λ d. d == b'0') s

abbrev pub cons_field : ℕ → List (List ℕ) → List (List ℕ)
cons_field c [] = (c ∷ []) ∷ []
cons_field c (part ∷ parts) = (c ∷ part) ∷ parts

-- `s.split("-")`
unfoldable pub split_hyphen : List ℕ → List (List ℕ)
split_hyphen [] = [] ∷ []
split_hyphen (c ∷ s) =
    let parts = split_hyphen s in if c == b'-' then [] ∷ parts else cons_field c parts

abbrev pub misfit : ℕ → List ℕ → Bool
misfit n s = not (length s == n) || not (is_hex s)

-- The checks on the four fields, in the order of the source.
unfoldable pub check_fields : List ℕ → List ℕ → List ℕ → List ℕ → Result TraceFault (Unit {0})
check_fields version trace_id span_id flags = do
  raise_if (misfit 2 version) bad_version
  raise_if (misfit 32 trace_id) bad_trace_id
  raise_if (is_zeros trace_id) zero_trace_id
  raise_if (misfit 16 span_id) bad_span_id
  raise_if (is_zeros span_id) zero_span_id
  raise_if (misfit 2 flags) bad_flags

-- `if len(parts) != 4: raise …`, then the unpacking.
unfoldable pub check_parts : List (List ℕ) → Result TraceFault (Unit {0})
check_parts (version ∷ trace_id ∷ span_id ∷ flags ∷ []) =
    check_fields version trace_id span_id flags
check_parts _ = err wrong_field_count

unfoldable pub validate_traceparent : String → Result TraceFault (Unit {0})
validate_traceparent traceparent = check_parts (split_hyphen (codes traceparent))

pub record TraceContext : Type 0 where
  pub traceparent : String
  pub tracestate : Option String

-- The dataclass constructor with its `__post_init__`.
unfoldable pub make_trace_context : String → Option String → Result ValueError TraceContext
make_trace_context traceparent tracestate = do
  map_err trace_context_error (validate_traceparent traceparent)
  ok (record { traceparent = traceparent; tracestate = tracestate })
