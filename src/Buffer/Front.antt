-- ===== src/Buffer/Front.antt =====
-- `Prepend`, and the 32-bit integers in network byte order.
use turbo_core_dist_ai_clush.Prelude.{
  ℕ, ◌+◌, ◌-◌, ◌≤◌, ◌<◌, ◌^◌, ◌≡◌, ap, ap₂, ◌∙◌, List, [], ◌++◌, arith, length, take, drop,
  length-append, length-take, length-drop, take-drop, take-append_ge, drop-append_length,
}
use turbo_core_dist_ai_clush.Prelude.Int.{ℤ, pos, negsuc, IsInt32}
use turbo_core_dist_ai_clush.Prelude.Size.{ok, >>=-ok, assert-ok}
use turbo_core_dist_ai_clush.Protocol.Words.{write_uint32, read_uint32-bytes}
use turbo_core_dist_ai_clush.Buffer.{
  Buffer, max_size, prepend, peek_int32, append_int32, int32_of_bits, bits_of_int32,
}
use turbo_core_dist_ai_clush.Buffer.Valid.{
  IsValid, contents, Leaves, length-contents, le→leb, copy_to-ok, source-ok, bytes_at-ok,
}
use turbo_core_dist_ai_clush.Buffer.Queue.{append-Leaves, front_bytes}

-- `Prepend` puts the bytes in front of those at hand, if there is room in front.
pub prepend-Leaves :
    (b : Buffer) (bytes : List ℕ) (len : ℕ)
    → IsValid b
    → len ≤ length bytes
    → len ≤ b.m_read_idx
    → Leaves (prepend b bytes len) (take len bytes ++ contents b)
unfolding prepend
prepend-Leaves b bytes len v enough room = (
  record b { m_buf = after; m_read_idx = r - len },
  >>=-ok _ (assert-ok (le→leb len r room))
      ∙ >>=-ok _ (source-ok bytes len enough)
      ∙ >>=-ok _ (copy_to-ok front (r - len) buf (omega (arith, size))),
  omega (arith, sizes),
  shown,
)
  where
    open b use {m_buf as buf, m_read_idx as r, m_write_idx as w}

    front : List ℕ
    front = take len bytes

    size : length front ≡ len
    size = omega (arith, length-take len bytes)

    after : List ℕ
    after = take (r - len) buf ++ (front ++ drop (r - len + length front) buf)

    sizes : length after ≡ length buf
    sizes = omega (
      arith,
      size,
      length-append (take (r - len) buf) (front ++ drop (r - len + length front) buf),
      length-append front (drop (r - len + length front) buf),
      length-take (r - len) buf,
      length-drop (r - len + length front) buf,
    )

    kept : take (w - (r - len)) (front ++ drop (r - len + length front) buf) ≡ front ++ contents b
    kept =
        take-append_ge (w - (r - len)) front (drop (r - len + length front) buf)
          (omega (arith, size))
        ∙ ap (λ rest. front ++ rest)
            (ap₂ (λ n m. take n (drop m buf)) (omega (arith, size)) (omega (arith, size))
              ∙ take-drop (w - r) r buf
              ∙ ap (λ n. drop r (take n buf)) (omega arith))

    shown : drop (r - len) (take w after) ≡ front ++ contents b
    shown =
        ap (drop (r - len)) (
          take-append_ge w (take (r - len) buf) (front ++ drop (r - len + length front) buf)
            (omega (arith, length-take (r - len) buf))
          ∙ ap (λ n. take (r - len) buf ++ take n (front ++ drop (r - len + length front) buf))
              (omega (arith, length-take (r - len) buf)))
        ∙ drop-append_length (r - len) (take (r - len) buf)
            (take (w - (r - len)) (front ++ drop (r - len + length front) buf))
            (omega (arith, length-take (r - len) buf))
        ∙ kept

bits_of_int32-lt : (x : ℤ) → IsInt32 x → bits_of_int32 x < 2 ^ 32
bits_of_int32-lt (pos n) h = omega arith
bits_of_int32-lt (negsuc n) h = omega arith

int32_of_bits-bits_of_int32 : (x : ℤ) → IsInt32 x → int32_of_bits (bits_of_int32 x) ≡ x
int32_of_bits-bits_of_int32 (pos n) h = ground arith
int32_of_bits-bits_of_int32 (negsuc n) h = ground arith

peek_int32_lem :
    (b : Buffer) (x : ℤ)
    → IsValid b
    → IsInt32 x
    → contents b ≡ write_uint32 (bits_of_int32 x) []
    → peek_int32 b ≡ ok x
unfolding peek_int32 write_uint32
peek_int32_lem b x v h same =
    let four : length (contents b) ≡ 4 = ap length same in
    >>=-ok _ (
      bytes_at-ok b b.m_read_idx 4 (omega (arith, four, length-contents b v))
      ∙ ap ok (front_bytes b 4 v (omega (arith, four)) ∙ ap (take 4) same))
    ∙ ap (λ w. ok (int32_of_bits w)) (read_uint32-bytes (bits_of_int32 x) [] (bits_of_int32-lt x h))
    ∙ ap ok (int32_of_bits-bits_of_int32 x h)

-- An `int32_t` that is appended to an empty buffer is the one that `PeekInt32` reads there, also
-- where it is negative.
pub peek_int32-append_int32 :
    (b : Buffer) (x : ℤ)
    → IsValid b
    → IsInt32 x
    → contents b ≡ []
    → b.m_write_idx + 4 ≤ max_size
    → (b' : Buffer) × (append_int32 b x ≡ ok b') × IsValid b' × (peek_int32 b' ≡ ok x)
unfolding append_int32 write_uint32
peek_int32-append_int32 b x v h empty room =
    let (b', same, valid, after) =
      append-Leaves b (write_uint32 (bits_of_int32 x) []) 4 v (omega arith) room in
    (
      b',
      same,
      valid,
      peek_int32_lem b' x valid h (after ∙ ap (λ c. c ++ write_uint32 (bits_of_int32 x) []) empty),
    )
