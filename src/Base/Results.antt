-- ===== src/Base/Results.antt =====
-- src/include/oracle_scanner/protocol_error.hpp: the exception that every layer throws, as a value.
-- An error keeps its kind and not its message text. `stuck` is no outcome of the program: it marks
-- a loop whose fuel ran out.
use mathlib.Core.Path.{◌≡◌, refl}
use mathlib.Core.Logic.{◌⊎◌, inl, inr}
use mathlib.Core.Bool.{Bool, true, false}

pub data ProtocolErrorKind : Type 0 where
  truncated malformed limit_exceeded invalid_state unsupported : ProtocolErrorKind

pub data Result {ℓ} (A : Type ℓ) : Type ℓ where
  ok : A → Result A
  err : ProtocolErrorKind → Result A
  stuck : Result A

-- `if (test) throw ProtocolError(kind, ...)`
abbrev pub throw_if : Bool → ProtocolErrorKind → Result (Unit {0})
throw_if true kind = err kind
throw_if false kind = ok tt

infixl 5 ◌>>=◌ ◌>>◌
abbrev pub ◌>>=◌ {ℓ κ} : {A : Type ℓ} {B : Type κ} → Result A → (A → Result B) → Result B
ok a >>= f = f a
err e >>= f = err e
stuck >>= f = stuck

abbrev pub ◌>>◌ {ℓ} : {B : Type ℓ} → Result (Unit {0}) → Result B → Result B
m >> k = m >>= λ _. k

pub Result-cases {ℓ} :
    {A : Type ℓ} (r : Result A)
    → ((a : A) × (r ≡ ok a)) ⊎ ((e : ProtocolErrorKind) × (r ≡ err e)) ⊎ (r ≡ stuck)
Result-cases (ok a) = inl (a, refl)
Result-cases (err e) = inr (inl (e, refl))
Result-cases stuck = inr (inr refl)

-- A result that is known: it throws, or its value has the property.
pub data Ends {ℓ κ} {A : Type ℓ} (Q : A → Type κ) : Result A → Type (ℓ ⊔ κ) where
  returns : {a : A} → Q a → Ends Q (ok a)
  throws : {e : ProtocolErrorKind} → Ends Q (err e)

pub Ends-bind :
    {A B : Type 0} {P : A → Type 0} {Q : B → Type 0} {m : Result A} (f : A → Result B)
    → Ends P m
    → ((a : A) → P a → Ends Q (f a))
    → Ends Q (m >>= f)
Ends-bind f (returns {a} p) g = g a p
Ends-bind f throws g = throws

pub Ends-throw_if : (b : Bool) (e : ProtocolErrorKind) → Ends (λ _. b ≡ false) (throw_if b e)
Ends-throw_if true e = throws
Ends-throw_if false e = returns refl

-- A guard before the rest.
pub Ends-guard :
    {B : Type 0} {Q : B → Type 0} (b : Bool) (e : ProtocolErrorKind) (r : Result B)
    → (b ≡ false → Ends Q r)
    → Ends Q (throw_if b e >> r)
Ends-guard true e r h = throws
Ends-guard false e r h = h refl

pub Ends-value : {A : Type 0} {Q : A → Type 0} {a : A} → Ends Q (ok a) → Q a
Ends-value (returns q) = q

pub Ends-map :
    {A : Type 0} {P Q : A → Type 0} {r : Result A} → Ends P r → ((a : A) → P a → Q a) → Ends Q r
Ends-map (returns {a} p) g = returns (g a p)
Ends-map throws g = throws
