-- ===== src/Client/Monad.antt =====
-- A coroutine of the client: it changes the world `W` and returns a value or raises.
use sepp_py.Common.{◌≡◌, refl, ◌⊎◌, inl, inr, Bool, Result, ok, err, if◌then◌else◌}
use sepp_py.Errors.Codes.{RpcError}
use sepp_py.Errors.Exceptions.{Raised, SeppError, sepp, rpc_error}

abbrev pub M : Type 0 → Type 0 → Type 0
M W A = W → Result Raised A × W

-- What follows a call in the same coroutine: an exception skips it.
abbrev pub and_then : {W A B : Type 0} → Result Raised A × W → (A → M W B) → Result Raised B × W
and_then (ok a, w) f = f a w
and_then (err r, w) f = (err r, w)

infixl 5 ◌>>=◌ ◌>>◌
abbrev pub ◌>>=◌ : {W A B : Type 0} → M W A → (A → M W B) → M W B
◌>>=◌ m f w = and_then (m w) f

abbrev pub ◌>>◌ : {W B : Type 0} → M W (Unit {0}) → M W B → M W B
◌>>◌ m k w = and_then (m w) (λ _. k)

abbrev pub return : {W A : Type 0} → A → M W A
return a w = (ok a, w)

abbrev pub raise : {W A : Type 0} → Raised → M W A
raise r w = (err r, w)

-- Code with no effect on the world.
abbrev pub lift : {W A : Type 0} → Result Raised A → M W A
lift r w = (r, w)

abbrev pub raise_when : {W : Type 0} → Bool → Raised → M W (Unit {0})
raise_when b r w = if b then (err r, w) else (ok tt, w)

-- `except grpc.aio.AioRpcError as err: …`, on the outcome of the `try` block.
abbrev pub recover : {W A : Type 0} → (RpcError → M W A) → Result Raised A × W → Result Raised A × W
recover k (err (rpc_error e), w) = k e w
recover k o = o

abbrev pub catch_rpc : {W A : Type 0} → M W A → (RpcError → M W A) → M W A
catch_rpc m k w = recover k (m w)

-- `except grpc.aio.AioRpcError as err: raise f(err) from err`
abbrev pub map_rpc_error : {W A : Type 0} → (RpcError → SeppError) → M W A → M W A
map_rpc_error f m = catch_rpc m (λ e. raise (sepp (f e)))

-- To split on the outcome of a call, and keep the equation.
pub Outcome-cases :
    {W A : Type 0} (o : Result Raised A × W)
    → ((a : A) × (w : W) × (o ≡ (ok a, w))) ⊎ ((r : Raised) × (w : W) × (o ≡ (err r, w)))
Outcome-cases (ok a, w) = inl (a, w, refl)
Outcome-cases (err r, w) = inr (r, w, refl)

pub value-injective :
    {W A : Type 0} {a b : A} {w w' : W} → ◌≡◌ {A = Result Raised A × W} (ok a, w) (ok b, w') → a ≡ b
value-injective h = cc
