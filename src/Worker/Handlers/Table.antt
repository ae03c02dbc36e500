-- ===== src/Worker/Handlers/Table.antt =====
-- Which handler a job gets after a registration.
use sepp_py.Common.{
  String, str_eq, eq_iff, some, Dict, get, put, [], ◌∷◌, ok, ◌≡◌, refl, arith, if◌then◌else◌,
}
use sepp_py.Worker.Handlers.{Handlers, handle, handler_for}

pub get-put :
    {V : Type 0} (k : String) (v : V) (j : String) (m : Dict V)
    → get j (put k v m) ≡ (if str_eq k j then some v else get j m)
get-put k v j [] = refl
get-put k v j ((i, w) ∷ m) = ground (arith, get-put k v j m, eq_iff i k, eq_iff k j, eq_iff i j)

module _ {H : Type 0} where
  -- After a registration that succeeds, jobs of its type get the new handler, and jobs of other
  -- types get what they got before.
  handler_for-handle :
      (job_type : String) (h : H) (hs hs' : Handlers H) (other : String)
      → handle job_type h hs ≡ ok hs'
      → handler_for other hs' ≡ (if str_eq job_type other then some h else handler_for other hs)
  unfolding handle handler_for
  handler_for-handle job_type h hs hs' other e = ground (arith, get-put job_type h other hs.table)
