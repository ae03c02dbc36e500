-- ===== src/Tests/Services.antt =====
-- A server with the default servicer, and a grpc that strips the service from the path.
use Prim.Native.String
use Prim.Native.String.append
use sepp_py.Common.{ℕ, String, get, some, ◌≡◌, sym, ap, ◌∙◌}
use sepp_py.Wire.Service.{MessageClass, Method, stub, static_call, Grpc, default_servicer}
use sepp_py.Wire.Service.Served.{IsLawful, Serves, registered-Serves}

abbrev strip : String → String → String
strip String.[] s = s
strip (String.◌∷◌ c p) String.[] = String.[]
strip (String.◌∷◌ c p) (String.◌∷◌ d s) = strip p s

strip_lem : (p s : String) → strip p (String.◌++◌ p s) ≡ s
strip_lem String.[] s = λ i. append.nil s i
strip_lem (String.◌∷◌ c p) s =
    ap (strip (String.◌∷◌ c p)) (λ i. append.cons c p s i) ∙ strip_lem p s

-- A message is its class and a number, and its bytes are the number.
abbrev stripping : Grpc
stripping = record {
  Message = MessageClass × ℕ;
  Bytes = ℕ;
  IsOf = λ k m. m.0 ≡ k;
  serialize = λ k m. m.1;
  parse = λ k n. some (k, n);
  route = λ service handlers path. get (strip "/" (strip service (strip "/" path))) handlers;
}

stripping-IsLawful : IsLawful stripping
stripping-IsLawful = record {
  routes = λ service name handlers.
      let rest = String.◌++◌ "/" name in
      ap (λ x. get x handlers)
        (ap (λ x. strip "/" (strip service x)) (strip_lem "/" (String.◌++◌ service rest))
          ∙ ap (strip "/") (strip_lem service rest)
          ∙ strip_lem "/" name);
  parses = λ k m e. ap (λ c. some (c, m.1)) (sym e);
}

registered-Serves_example :
    Serves stripping stripping-IsLawful (default_servicer stripping) Method.nack (stub Method.nack)
    × Serves stripping stripping-IsLawful
        (default_servicer stripping)
        Method.nack
        (static_call Method.nack)
registered-Serves_example =
    registered-Serves stripping stripping-IsLawful (default_servicer stripping) Method.nack
