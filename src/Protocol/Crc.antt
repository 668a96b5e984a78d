-- ===== src/Protocol/Crc.antt =====
-- `crc32` of AiDist/1 protocol.h. The static table holds `table_entry i` at index `i`.
use turbo_core_dist_ai_clush.Prelude.{
  ℕ, zero, suc, ◌/◌, ◌%◌, ◌<◌, ◌^◌, bit_xor, ◌≡◌, refl, ap, ◌∙◌, sym, List, [], ◌∷◌, ◌++◌, arith,
  ◌==◌, if◌then◌else◌,
}
use turbo_core_dist_ai_clush.Prelude.Bits.{bit_xor-lt, bit_xor_cancel}

-- One round of the inner loop: `c & 1` chooses whether the polynomial is mixed in.
unfoldable pub table_round : ℕ → ℕ
table_round c = if c % 2 == 1 then bit_xor 0xedb8_8320 (c / 2) else c / 2

unfoldable pub table_rounds : ℕ → ℕ → ℕ
unfolding table_round
table_rounds zero c = c
table_rounds (suc j) c = table_rounds j (table_round c)

unfoldable pub table_entry : ℕ → ℕ
unfolding table_rounds
table_entry i = table_rounds 8 i

-- `crc = table[(crc ^ *data++) & 0xFF] ^ (crc >> 8)`
unfoldable pub crc_byte : ℕ → ℕ → ℕ
unfolding table_entry
crc_byte crc b = bit_xor (table_entry (bit_xor crc b % 256)) (crc / 256)

-- `while (len--)`
unfoldable pub crc_loop : ℕ → List ℕ → ℕ
unfolding crc_byte
crc_loop crc [] = crc
crc_loop crc (b ∷ bytes) = crc_loop (crc_byte crc b) bytes

unfoldable pub crc32 : ℕ → List ℕ → ℕ
unfolding crc_loop
crc32 crc bytes = bit_xor (crc_loop (bit_xor crc 0xffff_ffff) bytes) 0xffff_ffff

table_round-lt : (c : ℕ) → c < 2 ^ 32 → table_round c < 2 ^ 32
unfolding table_round
table_round-lt c h = ground (arith, bit_xor-lt 32 0xedb8_8320 (c / 2) (omega arith) (omega arith))

table_rounds-lt : (j c : ℕ) → c < 2 ^ 32 → table_rounds j c < 2 ^ 32
unfolding table_rounds
table_rounds-lt zero c h = h
table_rounds-lt (suc j) c h = table_rounds-lt j (table_round c) (table_round-lt c h)

table_entry-lt : (i : ℕ) → i < 256 → table_entry i < 2 ^ 32
unfolding table_entry
table_entry-lt i h = table_rounds-lt 8 i (omega arith)

crc_byte-lt : (crc b : ℕ) → crc < 2 ^ 32 → crc_byte crc b < 2 ^ 32
unfolding crc_byte
crc_byte-lt crc b h =
    bit_xor-lt 32 (table_entry (bit_xor crc b % 256)) (crc / 256)
      (table_entry-lt (bit_xor crc b % 256) (omega arith)) (omega arith)

crc_loop-lt : (crc : ℕ) (bytes : List ℕ) → crc < 2 ^ 32 → crc_loop crc bytes < 2 ^ 32
unfolding crc_loop
crc_loop-lt crc [] h = h
crc_loop-lt crc (b ∷ bytes) h = crc_loop-lt (crc_byte crc b) bytes (crc_byte-lt crc b h)

pub crc32-lt : (crc : ℕ) (bytes : List ℕ) → crc < 2 ^ 32 → crc32 crc bytes < 2 ^ 32
unfolding crc32
crc32-lt crc bytes h =
    bit_xor-lt 32 (crc_loop (bit_xor crc 0xffff_ffff) bytes) 0xffff_ffff
      (crc_loop-lt (bit_xor crc 0xffff_ffff) bytes (bit_xor-lt 32 crc 0xffff_ffff h (omega arith)))
      (omega arith)

crc_loop-append :
    (crc : ℕ) (xs ys : List ℕ) → crc_loop crc (xs ++ ys) ≡ crc_loop (crc_loop crc xs) ys
unfolding crc_loop
crc_loop-append crc [] ys = refl
crc_loop-append crc (x ∷ xs) ys = crc_loop-append (crc_byte crc x) xs ys

-- The checksum of a text that comes in two parts is the checksum of the second part started from
-- the checksum of the first, for every start value of 32 bits.
pub crc32-append :
    (crc : ℕ) (xs ys : List ℕ) → crc < 2 ^ 32 → crc32 crc (xs ++ ys) ≡ crc32 (crc32 crc xs) ys
unfolding crc32
crc32-append crc xs ys h =
    ap (λ c. bit_xor c 0xffff_ffff)
      (crc_loop-append (bit_xor crc 0xffff_ffff) xs ys
        ∙ ap (λ c. crc_loop c ys)
            (sym (
              bit_xor_cancel 32 (crc_loop (bit_xor crc 0xffff_ffff) xs) 0xffff_ffff
                (crc_loop-lt (bit_xor crc 0xffff_ffff) xs
                  (bit_xor-lt 32 crc 0xffff_ffff h (omega arith)))
                (omega arith))))
