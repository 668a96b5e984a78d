-- ===== src/Buffer/Valid.antt =====
-- The invariant of a buffer and the bytes that it holds.
use turbo_core_dist_ai_clush.Prelude.{
  ℕ, ◌+◌, ◌-◌, ◌≤◌, ◌<◌, false, ◌≡◌, List, ◌++◌, arith, leb, ltb, ltb→lt, lt→ltb, Bool-cases, inl,
  inr, true, length, take, drop, replicate, length-take, length-drop,
}
use turbo_core_dist_ai_clush.Prelude.Size.{Outcome, ok, undefined, length_error}
use turbo_core_dist_ai_clush.Buffer.{
  Buffer, max_size, readable_bytes, bytes_at, copy_to, source, resize,
}

pub record IsValid (b : Buffer) : Type 0 where
  pub read_le : b.m_read_idx ≤ b.m_write_idx
  pub write_le : b.m_write_idx ≤ length b.m_buf
  pub fits : length b.m_buf ≤ max_size

-- The bytes that are written and not yet read.
abbrev pub contents : Buffer → List ℕ
contents b = drop b.m_read_idx (take b.m_write_idx b.m_buf)

-- A call succeeds, keeps the invariant, and leaves these bytes.
abbrev pub Leaves : Outcome Buffer → List ℕ → Type 0
Leaves r bytes = (b' : Buffer) × (r ≡ ok b') × IsValid b' × (contents b' ≡ bytes)

pub length-contents : (b : Buffer) → IsValid b → length (contents b) ≡ b.m_write_idx - b.m_read_idx
length-contents b v = omega (
  arith,
  length-drop b.m_read_idx (take b.m_write_idx b.m_buf),
  length-take b.m_write_idx b.m_buf,
)

-- No index calculation of a valid buffer wraps: the sizes that it reports are the plain ones.
pub readable_bytes-length : (b : Buffer) → IsValid b → readable_bytes b ≡ length (contents b)
readable_bytes-length b v = omega (arith, length-contents b v)

pub le→leb : (a b : ℕ) → a ≤ b → leb a b ≡ true
le→leb a b h = ground arith

pub lt→leb_false : (a b : ℕ) → b < a → leb a b ≡ false
lt→leb_false a b h = ground arith

-- Accesses in range.
pub bytes_at-ok :
    (b : Buffer) (i len : ℕ)
    → i + len ≤ length b.m_buf
    → bytes_at b i len ≡ ok (take len (drop i b.m_buf))
unfolding bytes_at
bytes_at-ok b i len h = rw (le→leb (i + len) (length b.m_buf) h)

pub copy_to-ok :
    (bytes : List ℕ) (i : ℕ) (buf : List ℕ)
    → i + length bytes ≤ length buf
    → copy_to bytes i buf ≡ ok (take i buf ++ (bytes ++ drop (i + length bytes) buf))
unfolding copy_to
copy_to-ok bytes i buf h = rw (le→leb (i + length bytes) (length buf) h)

pub source-ok :
    (bytes : List ℕ) (len : ℕ) → len ≤ length bytes → source bytes len ≡ ok (take len bytes)
unfolding source
source-ok bytes len h = rw (le→leb len (length bytes) h)

-- Accesses out of range, and vectors that cannot be.
pub source_short : (bytes : List ℕ) (len : ℕ) → length bytes < len → source bytes len ≡ undefined
unfolding source
source_short bytes len h = rw (lt→leb_false len (length bytes) h)

pub resize_above : (buf : List ℕ) (n : ℕ) → max_size < n → resize buf n ≡ length_error
unfolding resize
resize_above buf n h = rw (lt→ltb max_size n h)

pub resize-ok :
    (buf : List ℕ) (n : ℕ)
    → n ≤ max_size
    → resize buf n ≡ ok (take n buf ++ replicate (n - length buf) 0)
unfolding resize
resize-ok buf n h = elim (Bool-cases (ltb max_size n)) [
  | inl above ↦ absurd (omega (arith, ltb→lt _ _ above))
  | inr below ↦ rw below
]
