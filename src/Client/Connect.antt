-- ===== src/Client/Connect.antt =====
-- `connect`: how the target, the TLS mode and the API key are decided, and what a failure raises.
pub mod Key
pub mod Session
use Prim.Native.Char.{code}
use Prim.Native.String
use sepp_py.Common.{
  ℕ, ltb, ◌==◌, Bool, true, false, not, ◌&&◌, ◌||◌, all, List, [], ◌∷◌, ◌++◌, String, is_empty,
  Option, none, some, is_some, Result, ok, err, ◌>>=◌, ◌>>◌, raise_if, if◌then◌else◌,
}
use sepp_py.Types.Trace.{codes}
use sepp_py.Errors.Exceptions.{ClientError, connect_error, invalid_api_key}
use sepp_py.Client.Env.{Metadata}

-- The rest of a text behind a prefix: `addr.startswith(p)` and `addr[len(p):]`.
unfoldable pub strip_prefix : String → String → Option String
strip_prefix String.[] s = some s
strip_prefix (String.◌∷◌ c p) String.[] = none
strip_prefix (String.◌∷◌ c p) (String.◌∷◌ d s) = if code c == code d then strip_prefix p s else none

-- `_normalize_target`
unfoldable pub normalize_target : String → String × Bool
unfolding strip_prefix
normalize_target addr = elim (strip_prefix "http://" addr) [
  | some rest ↦ (rest, false)
  | none ↦ elim (strip_prefix "https://" addr) [ some rest ↦ (rest, true) | none ↦ (addr, false) ]
]

-- `"\n" in s or "\r" in s`
unfoldable pub has_line_break : List ℕ → Bool
has_line_break [] = false
has_line_break (c ∷ s) = c == 10 || c == 13 || has_line_break s

-- Whether `s.encode("ascii")` succeeds.
unfoldable pub is_ascii : List ℕ → Bool
is_ascii s = all (λ c. ltb c 128) s

-- `_auth_metadata_for`
unfoldable pub auth_metadata_for : Option String → Result ClientError Metadata
unfolding has_line_break is_ascii
auth_metadata_for none = ok []
auth_metadata_for (some api_key) = do
  raise_if (has_line_break (codes api_key)) invalid_api_key
  raise_if (not (is_ascii (codes api_key))) invalid_api_key
  ok (("authorization", String.◌++◌ "Bearer " api_key) ∷ [])

-- The arguments that decide how the channel is made; a certificate bundle and a credentials
-- object are opaque.
pub record ConnectArgs : Type 0 where
  pub addr : String
  pub api_key : Option String
  pub tls : Bool
  pub tls_ca_cert : Option (List ℕ)
  pub tls_domain : Option String
  pub credentials : Option ℕ
  pub max_receive_message_bytes : Option ℕ

pub data Security : Type 0 where
  given_credentials : ℕ → Security
  ssl : (root_certificates : Option (List ℕ)) → Security
  insecure : Security

pub data ChannelOption : Type 0 where
  text_option : (name value : String) → ChannelOption
  int_option : (name : String) (value : ℕ) → ChannelOption

pub record Plan : Type 0 where
  pub target : String
  pub security : Security
  pub auth_metadata : Metadata
  pub extra_options : List ChannelOption  -- behind `_CHANNEL_OPTIONS`
  pub warns_plaintext_key : Bool

abbrev pub text_entry : String → Option String → List ChannelOption
text_entry name none = []
text_entry name (some v) = text_option name v ∷ []

abbrev pub int_entry : String → Option ℕ → List ChannelOption
int_entry name none = []
int_entry name (some v) = int_option name v ∷ []

abbrev pub has_entries : Metadata → Bool
has_entries [] = false
has_entries (e ∷ es) = true

-- `tls or scheme_is_tls or tls_ca_cert is not None or tls_domain is not None`
abbrev pub uses_tls : ConnectArgs → Bool
uses_tls a = a.tls || (normalize_target a.addr).1 || is_some a.tls_ca_cert || is_some a.tls_domain

abbrev pub security_of : ConnectArgs → Security
security_of a = elim a.credentials [
  | some c ↦ given_credentials c
  | none ↦ if uses_tls a then ssl a.tls_ca_cert else insecure
]

-- `connect` up to the creation of the channel.
unfoldable pub plan : ConnectArgs → Result ClientError Plan
unfolding auth_metadata_for normalize_target
plan a = do
  auth ← auth_metadata_for a.api_key
  ok (record {
    target = (normalize_target a.addr).0;
    security = security_of a;
    auth_metadata = auth;
    extra_options =
        text_entry "grpc.ssl_target_name_override" a.tls_domain
        ++ int_entry "grpc.max_receive_message_length" a.max_receive_message_bytes;
    warns_plaintext_key = has_entries auth && not (uses_tls a || is_some a.credentials);
  })
