-- ===== src/Wire/Runtime.antt =====
-- The protobuf runtime, a third-party package: the client's calls of it as an interface.
use sepp_py.Common.{
  all, ltb, ◌||◌, Bool, true, List, String, ℕ, ◌^◌, ◌<◌, ◌≤◌, ℤ, pos, neg_part, pos_part, ◌≤ℤ◌,
  Option, none, some, ◌≡◌,
}
use sepp_py.Types.Time.{Timedelta, Datetime, utc, instant_of, max_instant}
use sepp_py.Types.Trace.{codes}
use sepp_py.Wire.WellKnown.{Timestamp, Duration}

-- `none` stands for the exception that the call raises: `ValueError` where an integer does not fit
-- its field or a text has a lone surrogate, `ValueError` or `OverflowError` where a time is not representable.
pub record Runtime : Type 0 where
  pub text : String → Option String  -- the assignment of a `str`, encoded as UTF-8
  pub uint32 : ℤ → Option ℕ
  pub int64 : ℤ → Option ℤ
  pub to_datetime : Timestamp → Option Datetime  -- `ToDatetime(tzinfo=timezone.utc)`
  pub from_datetime : Datetime → Timestamp
  pub to_timedelta : Duration → Option Timedelta
  pub from_timedelta : Timedelta → Duration

-- A text without lone surrogates, by its code points.
abbrev pub is_utf8 : List ℕ → Bool
is_utf8 cs = all (λ c. ltb c 55296 || ltb 57343 c) cs

abbrev pub IsText : String → Type 0
IsText s = is_utf8 (codes s) ≡ true

-- The documented behaviour that theorems use.
pub record IsLawful (rt : Runtime) : Type 0 where
  pub text_fits : (s : String) → IsText s → rt.text s ≡ some s
  pub uint32_fits : (n : ℕ) → n < 2 ^ 32 → rt.uint32 (pos n) ≡ some n
  pub uint32_large : (n : ℕ) → 2 ^ 32 ≤ n → rt.uint32 (pos n) ≡ none
  pub uint32_exact : (v : ℤ) (n : ℕ) → rt.uint32 v ≡ some n → v ≡ pos n
  pub int64_fits : (v : ℤ) → pos_part v < 2 ^ 63 → neg_part v ≤ 2 ^ 63 → rt.int64 v ≡ some v
  pub int64_exact : (v n : ℤ) → rt.int64 v ≡ some n → v ≡ n
  pub to-from_datetime :
      (d : Datetime)
      → pos 0 ≤ℤ instant_of d
      → instant_of d ≤ℤ max_instant
      → rt.to_datetime (rt.from_datetime d) ≡ some (utc (instant_of d))
  pub from_datetime_sign :
      (d : Datetime)
      → pos 0 ≤ℤ instant_of d
      → (pos 0 ≤ℤ (rt.from_datetime d).seconds) × (pos 0 ≤ℤ (rt.from_datetime d).nanos)
