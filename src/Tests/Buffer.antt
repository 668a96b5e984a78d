-- ===== src/Tests/Buffer.antt =====
-- `Buffer` at concrete inputs.
use turbo_core_dist_ai_clush.Prelude.{ℕ, ◌≡◌, refl, [], ◌∷◌, arith, replicate, length-replicate}
use turbo_core_dist_ai_clush.Prelude.Size.{ok, undefined}
use turbo_core_dist_ai_clush.Buffer.{
  make_space, bytes_at, copy_to, source, Buffer, append, read_from_fd, read_failed, got, extra_size,
  ensure_writable_bytes,
}
use turbo_core_dist_ai_clush.Buffer.Valid.{IsValid, Leaves}
use turbo_core_dist_ai_clush.Buffer.Space.{MakesRoom, ensure_writable_bytes_lem}
use turbo_core_dist_ai_clush.Buffer.Queue.{append-Leaves}
use turbo_core_dist_ai_clush.Buffer.Socket.{read_from_fd-Leaves}
use turbo_core_dist_ai_clush.Buffer.ReadError.{read_from_fd-read_failed}

-- "a", CR, LF unread; one byte read and one free
abbrev small : Buffer
small = record { m_buf = 0 ∷ b'a' ∷ 13 ∷ 10 ∷ 0 ∷ []; m_read_idx = 1; m_write_idx = 4 }

small-IsValid : IsValid small
small-IsValid = omega arith

-- Two bytes more: the unread ones move to the front.
append_moves :
    append small (7 ∷ 8 ∷ []) 2
    ≡ ok (record { m_buf = b'a' ∷ 13 ∷ 10 ∷ 7 ∷ 8 ∷ []; m_read_idx = 0; m_write_idx = 5 })
unfolding append ensure_writable_bytes make_space bytes_at copy_to source
append_moves = refl

append-Leaves_example : Leaves (append small (7 ∷ 8 ∷ 9 ∷ []) 3) (b'a' ∷ 13 ∷ 10 ∷ 7 ∷ 8 ∷ 9 ∷ [])
append-Leaves_example =
    append-Leaves small (7 ∷ 8 ∷ 9 ∷ []) 3 small-IsValid (omega arith) (omega arith)

ensure_writable_bytes_lem_example : MakesRoom small 2 (ensure_writable_bytes small 2)
ensure_writable_bytes_lem_example = ensure_writable_bytes_lem small 2 small-IsValid (omega arith)

abbrev blank : Buffer
blank = record { m_buf = 0 ∷ 0 ∷ []; m_read_idx = 1; m_write_idx = 1 }

read_from_fd-Leaves_example :
    Leaves (read_from_fd small [] (got (7 ∷ 8 ∷ []))) (b'a' ∷ 13 ∷ 10 ∷ 7 ∷ 8 ∷ [])
read_from_fd-Leaves_example = read_from_fd-Leaves small [] (7 ∷ 8 ∷ []) small-IsValid (omega arith)

-- 11 is EAGAIN.
read_from_fd-read_failed_example :
    read_from_fd small (replicate extra_size 0) (read_failed 11) ≡ undefined
read_from_fd-read_failed_example =
    read_from_fd-read_failed small (replicate extra_size 0) 11 small-IsValid
      (length-replicate {A = ℕ} extra_size 0)
