-- ===== src/Prelude/Bits.antt =====
-- `bit_or` and `bit_xor` at variables: the recursion on the lowest digit, disjoint fields, bounds.
use Prim.Native.Nat.{
  ℕ, zero, suc, ◌+◌, ◌*◌, ◌/◌, ◌%◌, ◌≤◌, ◌<◌, ◌^◌, max, bit_or, bit_xor, digits, differ,
  bit_or-bitwise, bit_xor-bitwise,
}
use mathlib.Core.Path.{◌≡◌, refl, ap, ap₂, sym, ◌∙◌}
use native.Mathlib.Nat.{pow-suc}
use native.Mathlib.Omega.{arith}

-- The digits of `a` and `b` joined by `f`, with rounds for `n` digits.
abbrev joined : (ℕ → ℕ → ℕ) → ℕ → ℕ → ℕ → ℕ
joined f n a b = digits (λ b. b) f n a b

-- Rounds beyond the first number's digits change nothing.
joined_enough : (f : ℕ → ℕ → ℕ) (n a k b : ℕ) → a ≤ n → a ≤ k → joined f n a b ≡ joined f k a b
joined_enough f zero zero zero b p q = refl
joined_enough f zero zero (suc k) b p q = refl
joined_enough f zero (suc a) k b p q = absurd (omega arith)
joined_enough f (suc n) zero zero b p q = refl
joined_enough f (suc n) zero (suc k) b p q = refl
joined_enough f (suc n) (suc a) zero b p q = absurd (omega arith)
joined_enough f (suc n) (suc a) (suc k) b p q =
    ap (λ high. high * 2 + f (suc a % 2) (b % 2))
      (joined_enough f n (suc a / 2) k (b / 2) (omega arith) (omega arith))

zero-bit_or : (b : ℕ) → bit_or 0 b ≡ b
zero-bit_or b = bit_or-bitwise 0 b

pub zero-bit_xor : (b : ℕ) → bit_xor 0 b ≡ b
zero-bit_xor b = bit_xor-bitwise 0 b

differ-zero : (b : ℕ) → differ zero b ≡ b
differ-zero b = refl

-- One round: the digits above, and the lowest digit.
pub bit_or_step : (a b : ℕ) → bit_or a b ≡ bit_or (a / 2) (b / 2) * 2 + max (a % 2) (b % 2)
bit_or_step zero b = omega (arith, zero-bit_or b, zero-bit_or (b / 2))
bit_or_step (suc a) b =
    bit_or-bitwise (suc a) b
    ∙ ap (λ high. high * 2 + max (suc a % 2) (b % 2))
        (joined_enough max a (suc a / 2) (suc a / 2) (b / 2) (omega arith) (omega arith)
          ∙ sym (bit_or-bitwise (suc a / 2) (b / 2)))

pub bit_xor_step : (a b : ℕ) → bit_xor a b ≡ bit_xor (a / 2) (b / 2) * 2 + differ (a % 2) (b % 2)
bit_xor_step zero b = omega (arith, zero-bit_xor b, zero-bit_xor (b / 2), differ-zero (b % 2))
bit_xor_step (suc a) b =
    bit_xor-bitwise (suc a) b
    ∙ ap (λ high. high * 2 + differ (suc a % 2) (b % 2))
        (joined_enough differ a (suc a / 2) (suc a / 2) (b / 2) (omega arith) (omega arith)
          ∙ sym (bit_xor-bitwise (suc a / 2) (b / 2)))

bit_or-zero_fuel : (n a : ℕ) → a ≤ n → bit_or a 0 ≡ a
bit_or-zero_fuel n zero h = refl
bit_or-zero_fuel zero (suc a) h = absurd (omega arith)
bit_or-zero_fuel (suc n) (suc a) h =
    omega (arith, bit_or_step (suc a) 0, bit_or-zero_fuel n (suc a / 2) (omega arith))

bit_or-zero : (a : ℕ) → bit_or a 0 ≡ a
bit_or-zero a = bit_or-zero_fuel a a (omega arith)

-- A multiple of 2 ^ k and a number below 2 ^ k share no digit, so `|` is their sum.
pub bit_or_disjoint : (k q r : ℕ) → r < 2 ^ k → bit_or (q * 2 ^ k) r ≡ q * 2 ^ k + r
bit_or_disjoint zero q r h =
    let e : r ≡ 0 = omega arith in rw e (bit_or-zero (q * 2 ^ 0) ∙ omega arith)
bit_or_disjoint (suc k) q r h =
    bit_or_step (q * 2 ^ suc k) r
    ∙ ap₂ (λ h l. h * 2 + l)
        (ap (λ y. bit_or y (r / 2)) halve ∙ bit_or_disjoint k q (r / 2) (omega arith))
        (ap (λ y. max y (r % 2)) even)
    ∙ omega (arith, double)
  where
    double : q * 2 ^ suc k ≡ q * 2 ^ k * 2
    double = rw (pow-suc 2 k) (omega arith)

    halve : q * 2 ^ suc k / 2 ≡ q * 2 ^ k
    halve = omega (arith, double)

    even : q * 2 ^ suc k % 2 ≡ 0
    even = omega (arith, double)

differ_bit : (a b : ℕ) → differ (a % 2) (b % 2) < 2
differ_bit a b = bits (a % 2) (b % 2) (omega arith) (omega arith)
  where
    bits : (x y : ℕ) → x < 2 → y < 2 → differ x y < 2
    bits zero y p q = q
    bits (suc zero) zero p q = p
    bits (suc zero) (suc zero) p q = omega arith
    bits (suc zero) (suc (suc y)) p q = absurd (omega arith)
    bits (suc (suc x)) y p q = absurd (omega arith)

pub bit_xor-lt : (k a b : ℕ) → a < 2 ^ k → b < 2 ^ k → bit_xor a b < 2 ^ k
bit_xor-lt zero a b ha hb =
    let p : a ≡ 0 = omega arith in let q : b ≡ 0 = omega arith in rw (p, q) (omega arith)
bit_xor-lt (suc k) a b ha hb = omega (
  arith,
  bit_xor_step a b,
  differ_bit a b,
  bit_xor-lt k (a / 2) (b / 2) (omega arith) (omega arith),
)

differ_cancel : (x y : ℕ) → x < 2 → y < 2 → differ (differ x y) y ≡ x
differ_cancel zero zero p q = refl
differ_cancel zero (suc zero) p q = refl
differ_cancel zero (suc (suc y)) p q = absurd (omega arith)
differ_cancel (suc zero) zero p q = refl
differ_cancel (suc zero) (suc zero) p q = refl
differ_cancel (suc zero) (suc (suc y)) p q = absurd (omega arith)
differ_cancel (suc (suc x)) y p q = absurd (omega arith)

-- Applying a mask twice gives the value back.
pub bit_xor_cancel : (k a m : ℕ) → a < 2 ^ k → m < 2 ^ k → bit_xor (bit_xor a m) m ≡ a
bit_xor_cancel zero a m ha hm =
    let p : a ≡ 0 = omega arith in let q : m ≡ 0 = omega arith in rw (p, q) refl
bit_xor_cancel (suc k) a m ha hm =
    bit_xor_step x m
    ∙ ap₂ (λ h l. h * 2 + l)
        (ap (λ y. bit_xor y (m / 2)) upper
          ∙ bit_xor_cancel k (a / 2) (m / 2) (omega arith) (omega arith))
        (ap (λ y. differ y (m % 2)) lower
          ∙ differ_cancel (a % 2) (m % 2) (omega arith) (omega arith))
    ∙ omega arith
  where
    x : ℕ
    x = bit_xor a m

    upper : x / 2 ≡ bit_xor (a / 2) (m / 2)
    upper = omega (arith, bit_xor_step a m, differ_bit a m)

    lower : x % 2 ≡ differ (a % 2) (m % 2)
    lower = omega (arith, bit_xor_step a m, differ_bit a m)
