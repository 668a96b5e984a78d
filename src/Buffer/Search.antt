-- ===== src/Buffer/Search.antt =====
-- `FindCRLF` and `FindEOL` against plain descriptions of what they look for.
use turbo_core_dist_ai_clush.Prelude.{
  ℕ, zero, suc, ◌+◌, ◌≤◌, ◌<◌, ◌≡◌, refl, ap, ◌∙◌, sym, Option, none, some, List, [], ◌∷◌, arith,
  length, ◌==◌, Bool, true, false, ◌&&◌, if◌then◌else◌, Option-cases, inl, inr,
}
use turbo_core_dist_ai_clush.Prelude.Size.{ok, >>=-ok, assert-ok}
use turbo_core_dist_ai_clush.Buffer.{
  Buffer, memchr, crlf_loop, starts_with_lf, find_crlf, readable_from, peek,
}
use turbo_core_dist_ai_clush.Buffer.Valid.{le→leb}

-- The index of the first CR that an LF follows, counted from `i`.
unfoldable pub first_crlf : ℕ → List ℕ → Option ℕ
first_crlf i [] = none
first_crlf i (x ∷ rest) =
    if (x == 13) && starts_with_lf rest then some i else first_crlf (i + 1) rest

memchr-none : (i : ℕ) (bytes : List ℕ) → memchr 13 i bytes ≡ none → first_crlf i bytes ≡ none
unfolding memchr first_crlf
memchr-none i [] e = refl
memchr-none i (x ∷ xs) e = ground (arith, memchr-none (i + 1) xs)

-- Up to the first CR there is nothing, and it counts if an LF follows.
memchr-some :
    (i : ℕ) (bytes : List ℕ) {hit : ℕ} {rest : List ℕ}
    → memchr 13 i bytes ≡ some (hit, rest)
    → (length rest < length bytes)
      × (first_crlf i bytes ≡ (if starts_with_lf rest then some hit else first_crlf (hit + 1) rest))
unfolding memchr first_crlf
memchr-some i [] e = cc
memchr-some i (x ∷ xs) {hit} {rest} e =
    ground (arith, memchr-some (i + 1) xs {hit = hit} {rest = rest})

some-if {ℓ} :
    {A : Type ℓ} (t : Bool) (a c : A) → (if t then some a else some c) ≡ some (if t then a else c)
some-if true a c = refl
some-if false a c = refl

crlf_loop-first_crlf :
    (fuel p : ℕ) (bytes : List ℕ)
    → length bytes < fuel
    → crlf_loop fuel p bytes ≡ some (first_crlf p bytes)
unfolding crlf_loop
crlf_loop-first_crlf zero p bytes h = absurd (omega arith)
crlf_loop-first_crlf (suc fuel) p bytes h = elim (Option-cases (memchr 13 p bytes)) [
  | inl e ↦ rw (e, crlf_loop) (ap some (sym (memchr-none p bytes e)))
  | inr ((hit, rest), e) ↦
      let (shorter, spec) = memchr-some p bytes e in
      rw (e, crlf_loop)
        (rw (crlf_loop-first_crlf fuel (hit + 1) rest (omega arith), spec)
          (some-if (starts_with_lf rest) (some hit) (first_crlf (hit + 1) rest)))
]

-- From a pointer into the readable bytes or behind them, `FindCRLF` ends and returns the first CR
-- at or behind it that an LF follows within the readable bytes, and null where there is none.
pub find_crlf_lem :
    (b : Buffer) (start : ℕ)
    → peek b ≤ start
    → find_crlf b start ≡ ok (some (first_crlf start (readable_from b start)))
unfolding find_crlf
find_crlf_lem b start h =
    >>=-ok _ (assert-ok (le→leb (peek b) start h))
    ∙ ap ok (
        crlf_loop-first_crlf (suc (length (readable_from b start))) start (readable_from b start)
          (omega arith))
