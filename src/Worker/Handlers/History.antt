-- ===== src/Worker/Handlers/History.antt =====
-- What a sequence of registrations leaves in the table, against functions from job types.
use sepp_py.Common.{
  String, str_eq, Option, none, some, is_some, get, put, pop, List, [], ◌∷◌, Result, Result-cases,
  Option-cases, ok, err, ◌≡◌, refl, sym, inl, inr, arith, if◌then◌else◌,
}
use sepp_py.Worker.Handlers.{
  Handlers, no_handlers, handle, handler, replace_handler, remove_handler, catch_all, or_else,
  handler_for,
}
use sepp_py.Worker.Handlers.Table.{get-put}
use sepp_py.Worker.Handlers.Distinct.{IsDistinct, put-IsDistinct, pop-IsDistinct, get-pop}

-- The calls of a worker that change its table.
pub data Call (H : Type 0) : Type 0 where
  handles decorates replaces : (job_type : String) → H → Call H
  removes : (job_type : String) → Call H
  catches : H → Call H

-- A call that raises leaves the table as it is.
abbrev pub or_same : {E H A : Type 0} → (A → Handlers H) → Handlers H → Result E A → Handlers H
or_same f hs (ok a) = f a
or_same f hs (err e) = hs

module _ {H : Type 0} where
  unfoldable pub call : Call H → Handlers H → Handlers H
  unfolding handle handler replace_handler remove_handler catch_all
  call (handles job_type h) hs = or_same (λ hs'. hs') hs (handle job_type h hs)
  call (decorates job_type h) hs = or_same (λ p. p.1) hs (handler job_type h hs)
  call (replaces job_type h) hs = replace_handler job_type h hs
  call (removes job_type) hs = remove_handler job_type hs
  call (catches h) hs = catch_all h hs

  -- The calls in order, from a new worker.
  unfoldable pub history : List (Call H) → Handlers H → Handlers H
  unfolding call
  history [] hs = hs
  history (x ∷ xs) hs = history xs (call x hs)

-- A table as a function, with the catch-all.
pub record View (H : Type 0) : Type 0 where
  pub specific : String → Option H
  pub fallback : Option H

module _ {H : Type 0} where
  abbrev pub view : Handlers H → View H
  view hs = record { specific = λ j. get j hs.table; fallback = hs.catch_all_handler }

  abbrev pub at_key : String → Option H → (String → Option H) → String → Option H
  at_key k o f j = if str_eq k j then o else f j

  -- What a call means: a first registration wins, a replacement and a removal always do.
  abbrev pub meaning : Call H → View H → View H
  meaning (handles k h) v =
      if is_some (v.specific k) then v else record v { specific = at_key k (some h) v.specific }
  meaning (decorates k h) v =
      if is_some (v.specific k) then v else record v { specific = at_key k (some h) v.specific }
  meaning (replaces k h) v = record v { specific = at_key k (some h) v.specific }
  meaning (removes k) v = record v { specific = at_key k none v.specific }
  meaning (catches h) v = record v { fallback = some h }

  abbrev pub meanings : List (Call H) → View H → View H
  meanings [] v = v
  meanings (x ∷ xs) v = meanings xs (meaning x v)

module _ {H : Type 0} where
  -- The table and the functions give every job type the same.
  record Agrees (hs : Handlers H) (v : View H) : Type 0 where
    distinct : IsDistinct hs.table
    specific : (j : String) → get j hs.table ≡ v.specific j
    fallback : hs.catch_all_handler ≡ v.fallback

  put-Agrees :
      (k : String) (h : H) (hs : Handlers H) (v : View H)
      → Agrees hs v
      → Agrees
          (record hs { table = put k h hs.table })
          (record v { specific = at_key k (some h) v.specific })
  put-Agrees k h hs v a = record {
    distinct = put-IsDistinct k h hs.table a.distinct;
    specific = λ j. ground (arith, get-put k h j hs.table, a.specific j);
    fallback = a.fallback;
  }

  pop-Agrees :
      (k : String) (hs : Handlers H) (v : View H)
      → Agrees hs v
      → Agrees
          (record hs { table = pop k hs.table })
          (record v { specific = at_key k none v.specific })
  pop-Agrees k hs v a = record {
    distinct = pop-IsDistinct k hs.table a.distinct;
    specific = λ j. ground (arith, get-pop k j hs.table a.distinct, a.specific j);
    fallback = a.fallback;
  }

  first-Agrees :
      (k : String) (h : H) (hs : Handlers H) (v : View H)
      → Agrees hs v
      → Agrees (call (handles k h) hs) (meaning (handles k h) v)
  unfolding call handle
  first-Agrees k h hs v a = elim (Option-cases (get k hs.table)) [
    | inl e ↦ rw (e, sym (a.specific k), e, call, handle) (put-Agrees k h hs v a)
    | inr (g, e) ↦ rw (e, sym (a.specific k), e, call, handle) a
  ]

  -- The decorator changes the table as `handle` does.
  decorated :
      (k : String) (h : H) (hs : Handlers H) → call (decorates k h) hs ≡ call (handles k h) hs
  unfolding call handler
  decorated k h hs = elim (Result-cases (handle k h hs)) [
    | inl (hs', e) ↦ rw (e, call, handler) refl
    | inr (x, e) ↦ rw (e, call, handler) refl
  ]

  call-Agrees :
      (x : Call H) (hs : Handlers H) (v : View H) → Agrees hs v → Agrees (call x hs) (meaning x v)
  unfolding call handle handler replace_handler remove_handler catch_all
  call-Agrees (handles k h) hs v a = first-Agrees k h hs v a
  call-Agrees (decorates k h) hs v a = rw (decorated k h hs) (first-Agrees k h hs v a)
  call-Agrees (replaces k h) hs v a = put-Agrees k h hs v a
  call-Agrees (removes k) hs v a = pop-Agrees k hs v a
  call-Agrees (catches h) hs v a = record {
    distinct = a.distinct;
    specific = a.specific;
    fallback = refl;
  }

  history-Agrees :
      (xs : List (Call H)) (hs : Handlers H) (v : View H)
      → Agrees hs v
      → Agrees (history xs hs) (meanings xs v)
  unfolding history
  history-Agrees [] hs v a = a
  history-Agrees (x ∷ xs) hs v a =
      history-Agrees xs (call x hs) (meaning x v) (call-Agrees x hs v a)

  abbrev pub nothing_yet : View H
  nothing_yet = record { specific = λ j. none; fallback = none }

  -- After any calls that change the table of a new worker, each job gets the handler that the calls
  -- mean: for its type the first registration since the last removal, or a later replacement, and
  -- the last catch-all where there is none.
  pub handler_for-history :
      (xs : List (Call H)) (job_type : String)
      → handler_for job_type (history xs no_handlers)
        ≡ or_else ((meanings xs nothing_yet).specific job_type) (meanings xs nothing_yet).fallback
  unfolding handler_for
  handler_for-history xs job_type =
      let a =
        history-Agrees xs no_handlers nothing_yet
          (record { distinct = tt; specific = λ j. refl; fallback = refl }) in
      cc (a.specific job_type, a.fallback)
