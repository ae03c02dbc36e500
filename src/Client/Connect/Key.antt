-- ===== src/Client/Connect/Key.antt =====
-- When an API key is accepted, and when it travels in the clear.
use sepp_py.Common.{
  ℕ, ◌<◌, true, false, List, [], ◌∷◌, All, String, none, some, ok, IsOk, ◌≡◌, ◌≢◌, ◌↔◌, arith,
}
use sepp_py.Types.Trace.{codes}
use sepp_py.Client.Connect.{
  has_line_break, is_ascii, auth_metadata_for, ConnectArgs, insecure, Plan, plan,
}

-- An ASCII character that does not end a line.
abbrev pub IsHeaderChar : ℕ → Type 0
IsHeaderChar c = (c < 128) × (c ≢ 10) × (c ≢ 13)

header_chars :
    (s : List ℕ) → ((has_line_break s ≡ false) × (is_ascii s ≡ true)) ↔ All IsHeaderChar s
unfolding has_line_break is_ascii
header_chars [] = ground arith
header_chars (c ∷ s) = ground (arith, header_chars s)

-- An API key is accepted exactly if all its characters are ASCII and none ends a line.
pub auth_metadata_for_iff :
    (api_key : String) → IsOk (auth_metadata_for (some api_key)) ↔ All IsHeaderChar (codes api_key)
unfolding auth_metadata_for
auth_metadata_for_iff api_key = ground (arith, header_chars (codes api_key))

-- A plan that is made warns of a key in the clear exactly if there is a key and the channel is
-- insecure.
plan_iff :
    (a : ConnectArgs) (p : Plan)
    → plan a ≡ ok p
    → (p.warns_plaintext_key ≡ true) ↔ ((a.api_key ≢ none) × (p.security ≡ insecure))
unfolding plan auth_metadata_for
plan_iff a p h = ground arith
