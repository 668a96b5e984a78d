-- ===== src/Buffer/Space.antt =====
-- `MakeSpace` and `EnsureWritableBytes`: room for more bytes, with the bytes at hand unchanged.
use turbo_core_dist_ai_clush.Prelude.{
  dec_le, ℕ, ◌+◌, ◌-◌, ◌≤◌, ◌<◌, ◌≡◌, refl, ap, ◌∙◌, sym, List, ◌++◌, arith, leb, true, false,
  length, take, drop, replicate, length-append, length-take, length-drop, length-replicate,
  take-drop, take-append_length, take-append_le, take-take, ==_iff, ◌==◌,
}
use turbo_core_dist_ai_clush.Prelude.Size.{add_size, sub_size, Outcome, ok, >>=-ok, assert-ok}
use turbo_core_dist_ai_clush.Buffer.{
  Buffer, max_size, readable_bytes, writable_bytes, make_space, ensure_writable_bytes, bytes_at,
  copy_to,
}
use turbo_core_dist_ai_clush.Buffer.Valid.{
  IsValid, contents, length-contents, le→leb, lt→leb_false, bytes_at-ok, copy_to-ok, resize-ok,
}

-- A call succeeds, keeps the invariant and the contents, and leaves room for `len` bytes.
abbrev pub MakesRoom : Buffer → ℕ → Outcome Buffer → Type 0
MakesRoom b len r =
    (b' : Buffer) × (r ≡ ok b')
    × IsValid b'
    × (contents b' ≡ contents b)
    × (b'.m_write_idx + len ≤ length b'.m_buf)

module _ (b : Buffer) (len : ℕ) (v : IsValid b) where
  open b use {m_buf as buf, m_read_idx as r, m_write_idx as w}

  moved_buf : List ℕ
  moved_buf = contents b ++ drop (w - r) buf

  unread-eq-contents : take (readable_bytes b) (drop r buf) ≡ contents b
  unread-eq-contents =
      take-drop (readable_bytes b) r buf ∙ ap (λ k. drop r (take k buf)) (omega arith)

  length-moved_buf : length moved_buf ≡ length buf
  unfolding moved_buf
  length-moved_buf = omega (
    arith,
    length-append (contents b) (drop (w - r) buf),
    length-contents b v,
    length-drop (w - r) buf,
  )

  moved : Buffer
  unfolding moved_buf
  moved = record { m_buf = moved_buf; m_read_idx = 0; m_write_idx = w - r }

  contents-moved : contents moved ≡ contents b
  unfolding moved
  contents-moved =
      take-append_length (w - r) (contents b) (drop (w - r) buf) (sym (length-contents b v))

  make_space-moved : len ≤ r + (length buf - w) → make_space b len ≡ ok moved
  unfolding make_space moved
  make_space-moved h = rw fits (
      >>=-ok _ unread
      ∙ >>=-ok _ copied
      ∙ >>=-ok _ (assert-ok same)
      ∙ ap (λ n. ok (record { m_buf = moved_buf; m_read_idx = 0; m_write_idx = n })) plain)
    where
      fits : leb len (add_size r (writable_bytes b)) ≡ true
      fits = le→leb _ _ (omega arith)

      plain : readable_bytes b ≡ w - r
      plain = omega arith

      unread : bytes_at b r (readable_bytes b) ≡ ok (contents b)
      unread = bytes_at-ok b r (readable_bytes b) (omega arith) ∙ ap ok unread-eq-contents

      copied : copy_to (contents b) 0 buf ≡ ok moved_buf
      copied =
          copy_to-ok (contents b) 0 buf (omega (arith, length-contents b v))
          ∙ ap (λ n. ok (contents b ++ drop n buf)) (omega (arith, length-contents b v))

      same : (readable_bytes b == sub_size (readable_bytes b) 0) ≡ true
      same = (==_iff _ _).1 (omega arith)

  make_space_moves : len ≤ r + (length buf - w) → MakesRoom b len (make_space b len)
  unfolding moved
  make_space_moves h = (
    moved,
    make_space-moved h,
    omega (arith, length-moved_buf),
    contents-moved,
    omega (arith, length-moved_buf),
  )

  grown : Buffer
  grown = record b { m_buf = take (w + len) buf ++ replicate (w + len - length buf) 0 }

  length-grown : length buf ≤ w + len → length grown.m_buf ≡ w + len
  unfolding grown
  length-grown h = omega (
    arith,
    length-append (take (w + len) buf) (replicate (w + len - length buf) 0),
    length-take (w + len) buf,
    length-replicate (w + len - length buf) (let zero_byte : ℕ = 0 in zero_byte),
  )

  make_space-grown : r + (length buf - w) < len → w + len ≤ max_size → make_space b len ≡ ok grown
  unfolding make_space grown
  make_space-grown h room = rw full (
      >>=-ok _ (resize-ok buf (add_size w len) (omega arith))
      ∙ ap (λ n. ok (record b { m_buf = take n buf ++ replicate (n - length buf) 0 })) plain)
    where
      full : leb len (add_size r (writable_bytes b)) ≡ false
      full = lt→leb_false _ _ (omega arith)

      plain : add_size w len ≡ w + len
      plain = omega arith

  contents-grown : length buf ≤ w + len → contents grown ≡ contents b
  unfolding grown
  contents-grown h = ap (drop r) (
      take-append_le w (take (w + len) buf) (replicate (w + len - length buf) 0)
        (omega (arith, length-take (w + len) buf))
      ∙ take-take w (w + len) buf (omega arith))

  make_space_grows :
      r + (length buf - w) < len → w + len ≤ max_size → MakesRoom b len (make_space b len)
  unfolding grown
  make_space_grows h room = (
    grown,
    make_space-grown h room,
    omega (arith, length-grown (omega arith)),
    contents-grown (omega arith),
    omega (arith, length-grown (omega arith)),
  )

  make_space_lem : w + len ≤ max_size → MakesRoom b len (make_space b len)
  make_space_lem room = elim (dec_le len (r + (length buf - w))) [
    | yes h ↦ make_space_moves h
    | no h ↦ make_space_grows (omega arith) room
  ]

  -- `EnsureWritableBytes` makes the room that it is asked for, on each of its ways: there is room,
  -- the unread bytes are moved to the front, or the vector grows. Its assertion holds, and the
  -- bytes at hand stay the same. The condition is that the vector may get as large as is asked.
  pub ensure_writable_bytes_lem : w + len ≤ max_size → MakesRoom b len (ensure_writable_bytes b len)
  unfolding ensure_writable_bytes
  ensure_writable_bytes_lem room = elim (dec_le len (length buf - w)) [
    | yes h ↦ (b, rw (le→leb len (writable_bytes b) (omega arith)), v, refl, omega arith)
    | no h ↦
        let (b', same, valid, kept, roomy) = make_space_lem room in
        (
          b',
          rw (lt→leb_false len (writable_bytes b) (omega arith))
              (>>=-ok _ same ∙ >>=-ok _ (assert-ok (le→leb len (writable_bytes b') (omega arith)))),
          valid,
          kept,
          roomy,
        )
  ]
