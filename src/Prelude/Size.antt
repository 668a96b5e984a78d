-- ===== src/Prelude/Size.antt =====
-- `size_t` of 64 bits, and calls that may end in more ways than by a value.
use Prim.Native.Nat.{ℕ, ◌+◌, ◌-◌, ◌%◌, ◌^◌}
use mathlib.Core.Path.{◌≡◌, ap}
use mathlib.Core.Bool.{Bool, true, false}
use native.Mathlib.Omega.{arith}

abbrev pub add_size : ℕ → ℕ → ℕ
add_size a b = (a + b) % 2 ^ 64

abbrev pub sub_size : ℕ → ℕ → ℕ
sub_size a b = (a + 2 ^ 64 - b) % 2 ^ 64

-- A value, a failed `assert`, a `std::length_error`, or an access outside of the memory at hand.
pub data Outcome {ℓ} (A : Type ℓ) : Type ℓ where
  ok : A → Outcome A
  assert_failed : Outcome A
  length_error : Outcome A
  undefined : Outcome A

infixl 5 ◌>>=◌ ◌>>◌
abbrev pub ◌>>=◌ {ℓ κ} : {A : Type ℓ} {B : Type κ} → Outcome A → (A → Outcome B) → Outcome B
ok a >>= f = f a
assert_failed >>= f = assert_failed
length_error >>= f = length_error
undefined >>= f = undefined

abbrev pub ◌>>◌ {ℓ} : {B : Type ℓ} → Outcome (Unit {0}) → Outcome B → Outcome B
m >> k = m >>= λ _. k

abbrev pub assert : Bool → Outcome (Unit {0})
assert true = ok tt
assert false = assert_failed

-- An access that is defined only where the test holds.
abbrev pub defined : Bool → Outcome (Unit {0})
defined true = ok tt
defined false = undefined

-- A step of a chain whose result is known.
pub >>=-ok {ℓ κ} :
    {A : Type ℓ} {B : Type κ} (f : A → Outcome B) {m : Outcome A} {a : A}
    → m ≡ ok a
    → (m >>= f) ≡ f a
>>=-ok f e = ap (λ r. r >>= f) e

-- A test that holds lets the chain go on.
pub assert-ok : {t : Bool} → t ≡ true → assert t ≡ ok tt
assert-ok e = ap assert e

pub defined-ok : {t : Bool} → t ≡ true → defined t ≡ ok tt
defined-ok e = ap defined e

abbrev from_ok {ℓ} : {A : Type ℓ} → A → Outcome A → A
from_ok default (ok a) = a
from_ok default assert_failed = default
from_ok default length_error = default
from_ok default undefined = default

pub ok-injective {ℓ} : {A : Type ℓ} {a b : A} → ok a ≡ ok b → a ≡ b
ok-injective {a = a} e = ap (from_ok a) e

-- What holds of the end of every chain holds of the value that one gave.
pub every_ok {ℓ κ μ} :
    {A : Type ℓ} {B : Type κ} (P : B → Type μ) (f : A → Outcome B) (m : Outcome A) {b : B}
    → ((a : A) → f a ≡ ok b → P b)
    → (m >>= f) ≡ ok b
    → P b
every_ok P f (ok a) k e = k a e
every_ok P f assert_failed k e = ground (arith, e)
every_ok P f length_error k e = ground (arith, e)
every_ok P f undefined k e = ground (arith, e)
