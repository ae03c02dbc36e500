-- ===== src/Types/Priority.antt =====
-- `Priority`: a frozen integer in 0..9.
use sepp_py.Common.{ℕ, ℤ, pos, ◌≤ℤ◌, ltb_ℤ, ◌||◌, Result, ok, err, ◌≡◌, ◌↔◌, arith, if◌then◌else◌}
use sepp_py.Types.Faults.{PyArg, int, bool, other, ValueError, priority_out_of_range}

pub record Priority : Type 0 where
  pub value : ℤ

-- `__post_init__`
unfoldable pub make_priority : PyArg → Result ValueError Priority
make_priority (bool b) = err (priority_out_of_range (bool b))
make_priority other = err (priority_out_of_range other)
make_priority (int v) =
    if ltb_ℤ v (pos 0) || ltb_ℤ (pos 9) v
    then err (priority_out_of_range (int v))
    else ok (record { value = v })

-- `__int__`
abbrev pub int_of : Priority → ℤ
int_of p = p.value

-- The constants, by their value, and the two that bound them.
abbrev pub level : ℕ → Priority
level n = record { value = pos n }

abbrev pub min_priority : Priority
min_priority = level 0

abbrev pub max_priority : Priority
max_priority = level 9

-- The order that the dataclass generates: the one of the values.
abbrev pub AtMost : Priority → Priority → Type 0
AtMost p q = p.value ≤ℤ q.value

abbrev pub InRange : Priority → Type 0
InRange p = (pos 0 ≤ℤ p.value) × (p.value ≤ℤ pos 9)

-- Construction succeeds exactly for integers, not bools, within 0..9, and keeps the value.
make_priority_iff :
    (a : PyArg) (p : Priority) → (make_priority a ≡ ok p) ↔ ((a ≡ int p.value) × InRange p)
unfolding make_priority
make_priority_iff (bool b) p = ground arith
make_priority_iff other p = ground arith
make_priority_iff (int v) p = ground arith

-- Every priority that is made lies between MIN and MAX, and `int` gives back what it was made of.
make_priority_bounds :
    (v : ℤ) (p : Priority)
    → make_priority (int v) ≡ ok p
    → AtMost min_priority p × AtMost p max_priority × (int_of p ≡ v)
unfolding make_priority
make_priority_bounds v p h = ground arith
