-- ===== src/Buffer/Socket.antt =====
-- `ReadFromFd` and `WriteToFd` on Linux.
use turbo_core_dist_ai_clush.Prelude.{
  ℕ, ◌+◌, ◌-◌, ◌≤◌, ◌<◌, ◌^◌, ◌≡◌, refl, ap, ap₂, ◌∙◌, sym, List, ◌++◌, arith, length, take, drop,
  length-append, length-take, length-drop, take-append-drop, take_all, append_assoc,
  take-append_length, dec_le, ℕ_discrete, min,
}
use turbo_core_dist_ai_clush.Prelude.Size.{ok}
use turbo_core_dist_ai_clush.Buffer.{
  Buffer, max_size, writable_bytes, got, WriteResult, write_failed, wrote, finish_read, scatter,
  read_from_fd, write_to_fd, append,
}
use turbo_core_dist_ai_clush.Buffer.Valid.{
  IsValid, contents, Leaves, length-contents, le→leb, lt→leb_false,
}
use turbo_core_dist_ai_clush.Buffer.Queue.{append-Leaves, retrieve-Leaves, write_lem}

module _ (s : Buffer) (extrabuf : List ℕ) (n : ℕ) (behind : s.m_write_idx ≤ length s.m_buf)
    (small : length s.m_buf ≤ max_size) where
  finish_read_fits :
      n ≤ length s.m_buf - s.m_write_idx
      → finish_read s extrabuf n ≡ ok (record s { m_write_idx = s.m_write_idx + n })
  unfolding finish_read
  finish_read_fits h =
      rw (le→leb n (writable_bytes s) (omega arith))
        (ap (λ k. ok (record s { m_write_idx = k })) (omega arith))

  pub finish_read_overflows :
      length s.m_buf - s.m_write_idx < n
      → n < 2 ^ 64
      → finish_read s extrabuf n
        ≡ append
            (record s { m_write_idx = length s.m_buf })
            extrabuf
            (n - (length s.m_buf - s.m_write_idx))
  unfolding finish_read
  finish_read_overflows h fits =
      rw (lt→leb_false n (writable_bytes s) (omega arith))
        (ap (append (record s { m_write_idx = length s.m_buf }) extrabuf) (omega arith))

module _ (b : Buffer) (v : IsValid b) (bytes stack : List ℕ) where
  open b use {m_buf as buf, m_read_idx as r, m_write_idx as w}

  front : List ℕ
  front = take (writable_bytes b) bytes

  length-front : length front ≡ min (length buf - w) (length bytes)
  unfolding front
  length-front = omega (arith, length-take (writable_bytes b) bytes)

  -- The vector with the bytes that fitted.
  filled : Buffer
  unfolding front
  filled = record b {
    m_buf = take w buf ++ (front ++ drop (w + length front) buf);
    m_write_idx = w + length front;
  }

  filled_lem : IsValid filled × (contents filled ≡ contents b ++ front)
  unfolding filled
  filled_lem = write_lem b v front (omega (arith, length-front))

  length-filled : length filled.m_buf ≡ length buf
  unfolding filled
  length-filled = omega (
    arith,
    length-front,
    length-append (take w buf) (front ++ drop (w + length front) buf),
    length-append front (drop (w + length front) buf),
    length-take w buf,
    length-drop (w + length front) buf,
  )

  scatter-filled : scatter b bytes ≡ record filled { m_write_idx = w }
  unfolding scatter filled
  scatter-filled = refl

  read_fits :
      length bytes ≤ length buf - w
      → Leaves (finish_read (scatter b bytes) stack (length bytes)) (contents b ++ bytes)
  unfolding filled front
  read_fits h = (
    filled,
    ap (λ s. finish_read s stack (length bytes)) scatter-filled
        ∙ finish_read_fits (record filled { m_write_idx = w }) stack (length bytes)
            (omega (arith, length-filled)) (omega (arith, length-filled))
            (omega (arith, length-filled))
        ∙ ap (λ k. ok (record filled { m_write_idx = w + k })) (omega (arith, length-front)),
    filled_lem.0,
    filled_lem.1 ∙ ap (λ f. contents b ++ f) (take_all (writable_bytes b) bytes (omega arith)),
  )

  rest : List ℕ
  rest = drop (writable_bytes b) bytes ++ drop (length bytes - writable_bytes b) stack

  take-rest : take (length bytes - (length buf - w)) rest ≡ drop (writable_bytes b) bytes
  unfolding rest
  take-rest =
      take-append_length (length bytes - (length buf - w)) (drop (writable_bytes b) bytes)
        (drop (length bytes - writable_bytes b) stack)
        (omega (arith, length-drop (writable_bytes b) bytes))

  length-rest : length bytes - (length buf - w) ≤ length rest
  unfolding rest
  length-rest = omega (
    arith,
    length-append (drop (writable_bytes b) bytes) (drop (length bytes - writable_bytes b) stack),
    length-drop (writable_bytes b) bytes,
  )

  read_overflows :
      length buf - w < length bytes
      → length buf + length bytes ≤ max_size
      → Leaves (finish_read (scatter b bytes) rest (length bytes)) (contents b ++ bytes)
  unfolding filled front
  read_overflows h room =
      let full : w + length front ≡ length buf = omega (arith, length-front) in
      let (b', same, valid, after) =
        append-Leaves filled rest (length bytes - (length buf - w)) filled_lem.0
          (omega (arith, length-rest)) (omega (arith, full)) in
      (
        b',
        ap (λ s. finish_read s rest (length bytes)) scatter-filled
            ∙ finish_read_overflows (record filled { m_write_idx = w }) rest (length bytes)
                (omega (arith, length-filled)) (omega (arith, length-filled))
                (omega (arith, length-filled)) (omega arith)
            ∙ ap₂ (λ k m. append (record filled { m_write_idx = k }) rest (length bytes - (m - w)))
                (length-filled ∙ sym full) length-filled
            ∙ same,
        valid,
        after
            ∙ ap₂ ◌++◌ filled_lem.1 take-rest
            ∙ append_assoc (contents b) front (drop (writable_bytes b) bytes)
            ∙ ap (λ c. contents b ++ c) (take-append-drop (writable_bytes b) bytes),
      )

-- `ReadFromFd` puts all the bytes of a successful read behind those at hand, in order, whether
-- they fit into the vector or run over into the buffer on the stack.
pub read_from_fd-Leaves :
    (b : Buffer) (stack bytes : List ℕ)
    → IsValid b
    → length b.m_buf + length bytes ≤ max_size
    → Leaves (read_from_fd b stack (got bytes)) (contents b ++ bytes)
unfolding read_from_fd rest
read_from_fd-Leaves b stack bytes v room =
    elim (dec_le (length bytes) (length b.m_buf - b.m_write_idx)) [
      | yes h ↦
          read_fits b v bytes
            (drop (writable_bytes b) bytes ++ drop (length bytes - writable_bytes b) stack) h
      | no h ↦ read_overflows b v bytes stack (omega arith) room
    ]

-- How many bytes `write` took.
abbrev pub taken : WriteResult → ℕ
taken (write_failed errno) = 0
taken (wrote n) = n

-- What `WriteToFd` hands to `write` are the contents; the bytes that `write` took are taken off,
-- and on an error nothing is.
pub write_to_fd-Leaves :
    (b : Buffer) (r : WriteResult)
    → IsValid b
    → taken r ≤ length (contents b)
    → Leaves (write_to_fd b r) (drop (taken r) (contents b))
unfolding write_to_fd
write_to_fd-Leaves b (write_failed errno) v h = (b, refl, v, refl)
write_to_fd-Leaves b (wrote n) v h = elim (ℕ_discrete n 0) [
  | yes none_taken ↦ (b, ground arith, v, ap (λ k. drop k (contents b)) (sym none_taken))
  | no some_taken ↦
      let (b', same, valid, after) = retrieve-Leaves b n v h in
      (b', ground (arith, length-contents b v) ∙ same, valid, after)
]
