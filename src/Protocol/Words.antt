-- ===== src/Protocol/Words.antt =====
-- The big-endian words of AiDist/1 protocol.h (`write_uint32` to `read_uint16`).
-- A `char` is the number of its bit pattern; `>> k` is `/ 2 ^ k` and `& 0xFF` is `% 256`.
use turbo_core_dist_ai_clush.Prelude.{
  ℕ, ◌+◌, ◌*◌, ◌/◌, ◌%◌, ◌≤◌, ◌<◌, ◌^◌, bit_or, ◌≡◌, ap, ap₂, ◌∙◌, List, [], ◌∷◌, ◌++◌, arith,
  get_or, length, get_or-append_lt,
}
use turbo_core_dist_ai_clush.Prelude.Bits.{bit_or_disjoint}

-- `out.push_back` of the four bytes, highest first.
unfoldable pub write_uint32 : ℕ → List ℕ → List ℕ
write_uint32 val out =
    out ++ (val / 2 ^ 24 % 256) ∷ (val / 2 ^ 16 % 256) ∷ (val / 2 ^ 8 % 256) ∷ (val % 256) ∷ []

unfoldable pub write_uint16 : ℕ → List ℕ → List ℕ
write_uint16 val out = out ++ (val / 2 ^ 8 % 256) ∷ (val % 256) ∷ []

-- `(uint8_t)buf[i]`. The callers check the length first; a read out of range is 0 here.
abbrev byte_at : List ℕ → ℕ → ℕ
byte_at buf i = get_or buf i 0 % 256

unfoldable pub read_uint32 : List ℕ → ℕ
read_uint32 buf =
    bit_or
      (bit_or (bit_or (byte_at buf 0 * 2 ^ 24) (byte_at buf 1 * 2 ^ 16)) (byte_at buf 2 * 2 ^ 8))
      (byte_at buf 3)

unfoldable pub read_uint16 : List ℕ → ℕ
read_uint16 buf = bit_or (byte_at buf 0 * 2 ^ 8) (byte_at buf 1)

-- The bytes do not overlap, so `|` adds them.
or_four :
    (a b c d : ℕ)
    → b < 256
    → c < 256
    → d < 256
    → bit_or (bit_or (bit_or (a * 2 ^ 24) (b * 2 ^ 16)) (c * 2 ^ 8)) d
      ≡ a * 2 ^ 24 + b * 2 ^ 16 + c * 2 ^ 8 + d
or_four a b c d hb hc hd =
    ap (λ x. bit_or (bit_or x (c * 2 ^ 8)) d)
      (bit_or_disjoint 24 a (b * 2 ^ 16) (omega arith) ∙ regroup₁)
    ∙ ap (λ x. bit_or x d) (bit_or_disjoint 16 (a * 256 + b) (c * 2 ^ 8) (omega arith) ∙ regroup₂)
    ∙ bit_or_disjoint 8 (a * 2 ^ 16 + b * 256 + c) d (omega arith)
    ∙ omega arith
  where
    regroup₁ : a * 2 ^ 24 + b * 2 ^ 16 ≡ (a * 256 + b) * 2 ^ 16
    regroup₁ = omega arith

    regroup₂ : (a * 256 + b) * 2 ^ 16 + c * 2 ^ 8 ≡ (a * 2 ^ 16 + b * 256 + c) * 2 ^ 8
    regroup₂ = omega arith

pub read_uint32-eq-sum :
    (buf : List ℕ)
    → read_uint32 buf
      ≡ get_or buf 0 0 % 256 * 2 ^ 24
        + get_or buf 1 0 % 256 * 2 ^ 16
        + get_or buf 2 0 % 256 * 2 ^ 8
        + get_or buf 3 0 % 256
unfolding read_uint32
read_uint32-eq-sum buf =
    or_four (byte_at buf 0) (byte_at buf 1) (byte_at buf 2) (byte_at buf 3) (omega arith)
      (omega arith) (omega arith)

pub read_uint16-eq-sum :
    (buf : List ℕ) → read_uint16 buf ≡ get_or buf 0 0 % 256 * 2 ^ 8 + get_or buf 1 0 % 256
unfolding read_uint16
read_uint16-eq-sum buf = bit_or_disjoint 8 (byte_at buf 0) (byte_at buf 1) (omega arith)

pub read_uint32-lt : (buf : List ℕ) → read_uint32 buf < 2 ^ 32
read_uint32-lt buf = omega (arith, read_uint32-eq-sum buf)

pub read_uint16-lt : (buf : List ℕ) → read_uint16 buf < 2 ^ 16
read_uint16-lt buf = omega (arith, read_uint16-eq-sum buf)

-- Reading four bytes that were written gives the word back.
pub read_uint32-bytes :
    (val : ℕ) (rest : List ℕ)
    → val < 2 ^ 32
    → read_uint32
        ((val / 2 ^ 24 % 256) ∷ (val / 2 ^ 16 % 256) ∷ (val / 2 ^ 8 % 256) ∷ (val % 256) ∷ rest)
      ≡ val
read_uint32-bytes val rest h = read_uint32-eq-sum _ ∙ omega arith

pub read_uint16-bytes :
    (val : ℕ) (rest : List ℕ)
    → val < 2 ^ 16
    → read_uint16 ((val / 2 ^ 8 % 256) ∷ (val % 256) ∷ rest) ≡ val
read_uint16-bytes val rest h = read_uint16-eq-sum _ ∙ omega arith

-- A read of a word looks at its own bytes only.
byte_at-append : (xs ys : List ℕ) (i : ℕ) → i < length xs → byte_at (xs ++ ys) i ≡ byte_at xs i
byte_at-append xs ys i h = ap (λ b. b % 256) (get_or-append_lt xs ys i 0 h)

pub read_uint32-append : (xs ys : List ℕ) → 4 ≤ length xs → read_uint32 (xs ++ ys) ≡ read_uint32 xs
unfolding read_uint32
read_uint32-append xs ys h =
    ap₂ bit_or
      (ap₂ bit_or
        (ap₂ (λ a b. bit_or (a * 2 ^ 24) (b * 2 ^ 16)) (byte_at-append xs ys 0 (omega arith))
          (byte_at-append xs ys 1 (omega arith)))
        (ap (λ a. a * 2 ^ 8) (byte_at-append xs ys 2 (omega arith))))
      (byte_at-append xs ys 3 (omega arith))

pub read_uint16-append : (xs ys : List ℕ) → 2 ≤ length xs → read_uint16 (xs ++ ys) ≡ read_uint16 xs
unfolding read_uint16
read_uint16-append xs ys h =
    ap₂ (λ a b. bit_or (a * 2 ^ 8) b) (byte_at-append xs ys 0 (omega arith))
      (byte_at-append xs ys 1 (omega arith))
