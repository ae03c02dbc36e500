-- ===== src/Worker/Handlers/Distinct.antt =====
-- A dict in which no key stands twice, as a Python dict is.
use sepp_py.Common.{
  String, str_eq, eq_iff, false, none, Dict, get, put, pop, [], ◌∷◌, ◌≡◌, refl, arith,
  if◌then◌else◌,
}

-- No key stands in the table twice.
module _ {V : Type 0} where
  abbrev IsFresh : String → Dict V → Type 0
  IsFresh k [] = Unit
  IsFresh k ((j, w) ∷ m) = (str_eq j k ≡ false) × IsFresh k m

  abbrev pub IsDistinct : Dict V → Type 0
  IsDistinct [] = Unit
  IsDistinct ((j, w) ∷ m) = IsFresh j m × IsDistinct m

  get_of_fresh : (k : String) (m : Dict V) → IsFresh k m → get k m ≡ none
  get_of_fresh k [] h = refl
  get_of_fresh k ((j, w) ∷ m) h = ground (arith, get_of_fresh k m, h)

  IsFresh-put :
      (i k : String) (v : V) (m : Dict V) → str_eq k i ≡ false → IsFresh i m → IsFresh i (put k v m)
  IsFresh-put i k v [] n h = (n, tt)
  IsFresh-put i k v ((j, w) ∷ m) n h = ground (arith, n, h, IsFresh-put i k v m)

  IsFresh-pop : (i k : String) (m : Dict V) → IsFresh i m → IsFresh i (pop k m)
  IsFresh-pop i k [] h = tt
  IsFresh-pop i k ((j, w) ∷ m) h = ground (arith, h, IsFresh-pop i k m)

  pub put-IsDistinct : (k : String) (v : V) (m : Dict V) → IsDistinct m → IsDistinct (put k v m)
  put-IsDistinct k v [] h = (tt, tt)
  put-IsDistinct k v ((j, w) ∷ m) h =
      ground (arith, h, put-IsDistinct k v m, IsFresh-put j k v m, eq_iff j k, eq_iff k j)

  pub pop-IsDistinct : (k : String) (m : Dict V) → IsDistinct m → IsDistinct (pop k m)
  pop-IsDistinct k [] h = tt
  pop-IsDistinct k ((j, w) ∷ m) h = ground (arith, h, pop-IsDistinct k m, IsFresh-pop j k m)

  pub get-pop :
      (k : String) (j : String) (m : Dict V)
      → IsDistinct m
      → get j (pop k m) ≡ (if str_eq k j then none else get j m)
  get-pop k j [] h = ground arith
  get-pop k j ((i, w) ∷ m) h =
      ground (arith, h, get-pop k j m, get_of_fresh i m, eq_iff i k, eq_iff k j, eq_iff i j)
