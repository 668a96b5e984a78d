-- ===== src/Buffer/ReadError.antt =====
-- `ReadFromFd` where `readv` fails: its -1 becomes the count 2 ^ 64 - 1.
use turbo_core_dist_ai_clush.Prelude.{
  ℕ, ◌-◌, ◌<◌, ◌^◌, ◌≡◌, refl, ap, ◌∙◌, sym, List, ◌++◌, arith, length, take, leb, ==_iff, ◌==◌,
  if◌then◌else◌, length-append, length-take, ℕ_discrete, replicate, length-replicate,
}
use turbo_core_dist_ai_clush.Prelude.Size.{
  add_size, sub_size, ok, undefined, length_error, assert, ◌>>◌, ◌>>=◌, >>=-ok, assert-ok,
}
use turbo_core_dist_ai_clush.Buffer.{
  Buffer, extra_size, writable_bytes, read_failed, read_from_fd, append, make_space,
  ensure_writable_bytes, resize,
}
use turbo_core_dist_ai_clush.Buffer.Valid.{
  IsValid, le→leb, lt→leb_false, resize-ok, resize_above, source_short,
}
use turbo_core_dist_ai_clush.Buffer.Socket.{finish_read_overflows}

module _ (b : Buffer) (v : IsValid b) where
  open b use {m_buf as buf, m_write_idx as w}

  -- The count that is left when the vector is taken to be full.
  abbrev huge : ℕ
  huge = 2 ^ 64 - 1 - (length buf - w)

  full : Buffer
  full = record b { m_write_idx = length buf }

  make_space-full :
      make_space full huge
      ≡ (resize buf (add_size (length buf) huge) >>= λ cut. ok (record full { m_buf = cut }))
  unfolding make_space full
  make_space-full =
      rw
        (lt→leb_false huge (add_size b.m_read_idx (sub_size (length buf) (length buf)))
          (omega arith))
        refl

  ensure-full :
      ensure_writable_bytes full huge
      ≡ (make_space full huge >>= λ roomy. assert (leb huge (writable_bytes roomy)) >> ok roomy)
  unfolding ensure_writable_bytes full
  ensure-full = rw (lt→leb_false huge (sub_size (length buf) (length buf)) (omega arith)) refl

  ensure-full_empty : w ≡ 0 → ensure_writable_bytes full huge ≡ length_error
  ensure-full_empty empty =
      ensure-full
      ∙ ap (λ m. m >>= λ roomy. assert (leb huge (writable_bytes roomy)) >> ok roomy)
          (make_space-full
            ∙ ap (λ m. m >>= λ cut. ok (record full { m_buf = cut }))
                (resize_above buf (add_size (length buf) huge) (omega arith)))

  cut_buf : List ℕ
  cut_buf = take (w - 1) buf ++ replicate (w - 1 - length buf) 0

  length-cut_buf : length cut_buf ≡ w - 1
  unfolding cut_buf
  length-cut_buf = omega (
    arith,
    length-append (take (w - 1) buf) (replicate (w - 1 - length buf) 0),
    length-take (w - 1) buf,
    length-replicate (w - 1 - length buf) (let zero_byte : ℕ = 0 in zero_byte),
  )

  resize-cut : 0 < w → resize buf (add_size (length buf) huge) ≡ ok cut_buf
  unfolding cut_buf
  resize-cut some = ap (resize buf) (omega arith) ∙ resize-ok buf (w - 1) (omega arith)

  -- The assertion on the room holds, since the subtraction in it wraps too.
  ensure-full_cut : 0 < w → ensure_writable_bytes full huge ≡ ok (record full { m_buf = cut_buf })
  unfolding full
  ensure-full_cut some =
      ensure-full
      ∙ ap (λ m. m >>= λ roomy. assert (leb huge (writable_bytes roomy)) >> ok roomy)
          (make_space-full
            ∙ ap (λ m. m >>= λ cut. ok (record full { m_buf = cut })) (resize-cut some))
      ∙ >>=-ok _ (
          assert-ok
            (le→leb huge (sub_size (length cut_buf) (length buf)) (omega (arith, length-cut_buf))))

  append-full_empty : (stack : List ℕ) → w ≡ 0 → append full stack huge ≡ length_error
  unfolding append
  append-full_empty stack empty = rw (ensure-full_empty empty) refl

  append-full_cut :
      (stack : List ℕ) → length stack ≡ extra_size → 0 < w → append full stack huge ≡ undefined
  unfolding append
  append-full_cut stack h some =
      rw (ensure-full_cut some, source_short stack huge (omega arith)) refl

  read_error-append :
      (stack : List ℕ) (errno : ℕ)
      → read_from_fd b stack (read_failed errno) ≡ append full stack huge
  unfolding read_from_fd full
  read_error-append stack errno =
      finish_read_overflows b stack (2 ^ 64 - 1) v.write_le v.fits (omega arith) (omega arith)

-- Where `readv` fails, `ReadFromFd` does not return the error: the -1 is taken for a huge count. The
-- call ends in a `std::length_error` where the write index is 0, and otherwise in a copy that runs
-- out of the buffer on the stack.
pub read_from_fd-read_failed :
    (b : Buffer) (stack : List ℕ) (errno : ℕ)
    → IsValid b
    → length stack ≡ extra_size
    → read_from_fd b stack (read_failed errno)
      ≡ (if b.m_write_idx == 0 then length_error else undefined)
read_from_fd-read_failed b stack errno v h = elim (ℕ_discrete b.m_write_idx 0) [
  | yes empty ↦
      read_error-append b v stack errno
      ∙ append-full_empty b v stack empty
      ∙ sym (rw ((==_iff b.m_write_idx 0).1 empty) refl)
  | no some ↦
      read_error-append b v stack errno ∙ append-full_cut b v stack h (omega arith) ∙ ground arith
]
