-- ===== src/Prelude/Result.antt =====
-- Code that may throw: a value, or an exception with the text of its `what()`.
use Prim.Native.String.{String}
use mathlib.Core.Path.{◌≡◌, refl, ap}
use mathlib.Core.Logic.{◌⊎◌, inl, inr}
use mathlib.Core.Option.{Option, none, some}

pub data Result {ℓ} (A : Type ℓ) : Type ℓ where
  ok : A → Result A
  throws : String → Result A

infixl 5 ◌>>=◌
abbrev pub ◌>>=◌ {ℓ κ} : {A : Type ℓ} {B : Type κ} → Result A → (A → Result B) → Result B
ok a >>= f = f a
throws e >>= f = throws e

-- `catch`, where the handler keeps nothing of the exception.
abbrev pub caught {ℓ} : {A : Type ℓ} → Result A → Option A
caught (ok a) = some a
caught (throws e) = none

-- A step of a chain whose result is known.
pub >>=-ok {ℓ κ} :
    {A : Type ℓ} {B : Type κ} (f : A → Result B) {m : Result A} {a : A} → m ≡ ok a → (m >>= f) ≡ f a
>>=-ok f e = ap (λ r. r >>= f) e

-- To split on a computed result and keep the equation.
pub Result-cases {ℓ} :
    {A : Type ℓ} (r : Result A) → ((a : A) × (r ≡ ok a)) ⊎ ((e : String) × (r ≡ throws e))
Result-cases (ok a) = inl (a, refl)
Result-cases (throws e) = inr (e, refl)
