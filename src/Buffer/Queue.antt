-- ===== src/Buffer/Queue.antt =====
-- A valid buffer behaves as the queue of the bytes that it holds.
use turbo_core_dist_ai_clush.Prelude.{
  ℕ, ◌+◌, ◌≤◌, ◌<◌, ◌≡◌, refl, ap, ◌∙◌, sym, List, [], ◌++◌, arith, length, take, drop,
  length-append, length-take, length-drop, take-drop, drop-drop, take-append_length, take-take,
  drop-append_le, append_assoc,
}
use turbo_core_dist_ai_clush.Prelude.Size.{ok, assert_failed, >>=-ok, assert-ok}
use turbo_core_dist_ai_clush.Buffer.{
  Buffer, max_size, readable_bytes, retrieve, retrieve_all, retrieve_as_string, append, peek,
}
use turbo_core_dist_ai_clush.Buffer.Valid.{
  IsValid, contents, Leaves, length-contents, le→leb, lt→leb_false, bytes_at-ok, copy_to-ok,
  source-ok,
}
use turbo_core_dist_ai_clush.Buffer.Space.{ensure_writable_bytes_lem}

-- Bytes that are written behind a cut.
take-written :
    (w : ℕ) (buf bytes rest : List ℕ)
    → w ≤ length buf
    → take (w + length bytes) (take w buf ++ (bytes ++ rest)) ≡ take w buf ++ bytes
take-written w buf bytes rest h =
    ap (take (w + length bytes)) (sym (append_assoc (take w buf) bytes rest))
    ∙ take-append_length (w + length bytes) (take w buf ++ bytes) rest
        (omega (arith, length-append (take w buf) bytes, length-take w buf))

module _ (b : Buffer) (v : IsValid b) where
  open b use {m_buf as buf, m_read_idx as r, m_write_idx as w}

  -- Bytes written into room that is there.
  pub write_lem :
      (bytes : List ℕ)
      → w + length bytes ≤ length buf
      → let b' = record b {
        m_buf = take w buf ++ (bytes ++ drop (w + length bytes) buf);
        m_write_idx = w + length bytes;
      } in
        IsValid b' × (contents b' ≡ contents b ++ bytes)
  write_lem bytes h = (
    omega (
      arith,
      length-append (take w buf) (bytes ++ drop (w + length bytes) buf),
      length-append bytes (drop (w + length bytes) buf),
      length-take w buf,
      length-drop (w + length bytes) buf,
    ),
    ap (drop r) (take-written w buf bytes (drop (w + length bytes) buf) v.write_le)
        ∙ drop-append_le r (take w buf) bytes (omega (arith, length-take w buf)),
  )

-- `Append` puts the bytes behind those at hand, whether or not it has to make room.
pub append-Leaves :
    (b : Buffer) (bytes : List ℕ) (len : ℕ)
    → IsValid b
    → len ≤ length bytes
    → b.m_write_idx + len ≤ max_size
    → Leaves (append b bytes len) (contents b ++ take len bytes)
unfolding append
append-Leaves b bytes len v enough room =
    let (roomy, same, valid, kept, space) = ensure_writable_bytes_lem b len v room in
    let size : length (take len bytes) ≡ len = omega (arith, length-take len bytes) in
    let (valid', after) = write_lem roomy valid (take len bytes) (omega (arith, size)) in
    (
      record roomy {
        m_buf =
            take roomy.m_write_idx roomy.m_buf
            ++ (take len bytes ++ drop (roomy.m_write_idx + length (take len bytes)) roomy.m_buf);
        m_write_idx = roomy.m_write_idx + length (take len bytes);
      },
      >>=-ok _ same
          ∙ >>=-ok _ (source-ok bytes len enough)
          ∙ >>=-ok _
              (copy_to-ok (take len bytes) roomy.m_write_idx roomy.m_buf (omega (arith, size)))
          ∙ ap
              (λ n. ok (record roomy {
                m_buf =
                    take roomy.m_write_idx roomy.m_buf
                    ++ (take len bytes
                        ++ drop (roomy.m_write_idx + length (take len bytes)) roomy.m_buf);
                m_write_idx = n;
              }))
              (omega (arith, size)),
      valid',
      after ∙ ap (λ c. c ++ take len bytes) kept,
    )

-- `Retrieve` takes bytes off the front.
pub retrieve-Leaves :
    (b : Buffer) (len : ℕ)
    → IsValid b
    → len ≤ length (contents b)
    → Leaves (retrieve b len) (drop len (contents b))
unfolding retrieve
retrieve-Leaves b len v h = (
  record b { m_read_idx = b.m_read_idx + len },
  >>=-ok _ (assert-ok (le→leb len (readable_bytes b) (omega (arith, length-contents b v))))
      ∙ ap (λ n. ok (record b { m_read_idx = n })) (omega (arith, length-contents b v)),
  omega (arith, length-contents b v),
  sym (drop-drop len b.m_read_idx (take b.m_write_idx b.m_buf)),
)

-- Asking for more than there is fails the assertion.
pub retrieve_too_much :
    (b : Buffer) (len : ℕ) → IsValid b → length (contents b) < len → retrieve b len ≡ assert_failed
unfolding retrieve
retrieve_too_much b len v h =
    rw (lt→leb_false len (readable_bytes b) (omega (arith, length-contents b v)))

-- A read at the read index gives the first bytes of the contents.
pub front_bytes :
    (b : Buffer) (len : ℕ)
    → IsValid b
    → len ≤ length (contents b)
    → take len (drop b.m_read_idx b.m_buf) ≡ take len (contents b)
front_bytes b len v h =
    take-drop len b.m_read_idx b.m_buf
    ∙ ap (drop b.m_read_idx) (
        sym (
          take-take (b.m_read_idx + len) b.m_write_idx b.m_buf
            (omega (arith, length-contents b v))))
    ∙ sym (take-drop len b.m_read_idx (take b.m_write_idx b.m_buf))

-- `RetrieveAsString` returns the bytes that it takes off.
pub retrieve_as_string_lem :
    (b : Buffer) (len : ℕ)
    → IsValid b
    → len ≤ length (contents b)
    → (b' : Buffer) × (retrieve_as_string b len ≡ ok (take len (contents b), b'))
      × IsValid b'
      × (contents b' ≡ drop len (contents b))
unfolding retrieve_as_string
retrieve_as_string_lem b len v h =
    let (b', same, valid, rest) = retrieve-Leaves b len v h in
    (
      b',
      >>=-ok _ (assert-ok (le→leb len (readable_bytes b) (omega (arith, length-contents b v))))
          ∙ >>=-ok _ (
              bytes_at-ok b (peek b) len (omega (arith, length-contents b v))
              ∙ ap ok (front_bytes b len v h))
          ∙ >>=-ok _ same,
      valid,
      rest,
    )

-- `RetrieveAll` leaves nothing.
pub retrieve_all_lem :
    (b : Buffer) → IsValid b → IsValid (retrieve_all b) × (contents (retrieve_all b) ≡ [])
unfolding retrieve_all
retrieve_all_lem b v = (omega arith, refl)
