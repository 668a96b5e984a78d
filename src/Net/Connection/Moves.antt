-- ===== src/Net/Connection/Moves.antt =====
-- The handlers of a connection on its two buffers.
use turbo_core_dist_ai_clush.Prelude.{
  ℕ, ◌+◌, ◌≤◌, ◌≡◌, refl, ap, ◌∙◌, sym, true, Bool-cases, inl, inr, List, [], ◌∷◌, ◌++◌, arith,
  length, take, append-nil, take-append-drop, subst,
}
use turbo_core_dist_ai_clush.Prelude.Size.{Outcome, ok}
use turbo_core_dist_ai_clush.Buffer.{Buffer, max_size, ReadResult, read_failed, got, WriteResult}
use turbo_core_dist_ai_clush.Buffer.Valid.{IsValid, contents}
use turbo_core_dist_ai_clush.Buffer.Queue.{append-Leaves, retrieve-Leaves}
use turbo_core_dist_ai_clush.Buffer.Socket.{taken, read_from_fd-Leaves, write_to_fd-Leaves}
use turbo_core_dist_ai_clush.Net.Connection.{
  TcpConnection, Functor, later_send, later_shutdown, later_force_close, is_connected,
  connect_destroyed, handle_close, handle_read, handle_write, after_read, after_write, after_all,
  send, send_in_loop, shutdown, shutdown_in_loop, force_close_in_loop, write_count, write_error,
  force_close, run_functor,
}
use turbo_core_dist_ai_clush.Net.Connection.Steps.{
  writable, consumes, step, IsRoom, IsNextRoom, accepted, accepted_next, written,
}

pub record IsFit (c : TcpConnection) : Type 0 where
  pub input : IsValid c.m_input_buffer
  pub output : IsValid c.m_output_buffer

-- The buffers that a handler leaves.
abbrev pub Keeps : TcpConnection → TcpConnection → Type 0
Keeps c c' = (c'.m_input_buffer ≡ c.m_input_buffer) × (c'.m_output_buffer ≡ c.m_output_buffer)

pub handle_close-Keeps : (c : TcpConnection) → Keeps c (handle_close c)
unfolding handle_close
handle_close-Keeps c = ground arith

pub connect_destroyed-Keeps : (c : TcpConnection) → Keeps c (connect_destroyed c)
unfolding connect_destroyed
connect_destroyed-Keeps c = ground arith

shutdown_in_loop-Keeps : (c : TcpConnection) → Keeps c (shutdown_in_loop c)
unfolding shutdown_in_loop
shutdown_in_loop-Keeps c = ground arith

force_close_in_loop-Keeps : (c : TcpConnection) → Keeps c (force_close_in_loop c)
unfolding force_close_in_loop
force_close_in_loop-Keeps c = ground arith

pub shutdown-Keeps : (c : TcpConnection) → Keeps c (shutdown c true)
unfolding shutdown shutdown_in_loop
shutdown-Keeps c = ground arith

pub force_close-Keeps : (c : TcpConnection) → Keeps c (force_close c true)
unfolding force_close force_close_in_loop
force_close-Keeps c = ground arith

after_read-Keeps : (c : TcpConnection) (r : ReadResult) → Keeps c (after_read c r)
unfolding after_read
after_read-Keeps c (read_failed err) = ground (arith, handle_close-Keeps c)
after_read-Keeps c (got []) = handle_close-Keeps c
after_read-Keeps c (got (b ∷ bs)) = (refl, refl)

after_all-Keeps : (c : TcpConnection) → Keeps c (after_all c)
after_all-Keeps c = ground arith

after_write-Keeps : (c : TcpConnection) (n err : ℕ) → Keeps c (after_write c n err)
unfolding after_write
after_write-Keeps c n err =
    ground (arith, after_all-Keeps c, handle_close-Keeps (after_all c), handle_close-Keeps c)

-- A call succeeds, keeps the buffers valid, and moves bytes from those given to those written.
abbrev pub Moves : TcpConnection → Outcome TcpConnection → List ℕ → List ℕ → Type 0
Moves c r given gone =
    (c' : TcpConnection) × (r ≡ ok c')
    × IsFit c'
    × (contents c.m_output_buffer ++ given ≡ gone ++ contents c'.m_output_buffer)

module _ (c : TcpConnection) (v : IsFit c) where
  -- A handler whose end has these buffers.
  arrives-Moves :
      (c' : TcpConnection) (input output : Buffer) (given gone : List ℕ)
      → IsValid input
      → IsValid output
      → (c'.m_input_buffer ≡ input) × (c'.m_output_buffer ≡ output)
      → contents c.m_output_buffer ++ given ≡ gone ++ contents output
      → Moves c (ok c') given gone
  arrives-Moves c' input output given gone vi vo (same_input, same_output) e = (
    c',
    refl,
    record {
      input = subst IsValid (sym same_input) vi;
      output = subst IsValid (sym same_output) vo;
    },
    e ∙ ap (λ b. gone ++ contents b) (sym same_output),
  )

  pub still-Moves : (c' : TcpConnection) → Keeps c c' → Moves c (ok c') [] []
  still-Moves c' k =
      arrives-Moves c' c.m_input_buffer c.m_output_buffer [] [] v.input v.output k
        (append-nil (contents c.m_output_buffer))

  send_in_loop-Moves :
      (bytes : List ℕ) (len : ℕ)
      → IsRoom c bytes len
      → Moves c (send_in_loop c bytes len) (accepted c bytes len) []
  unfolding send_in_loop
  send_in_loop-Moves bytes len (there, room) = elim (Bool-cases (is_connected c.m_state)) [
    | inl yet ↦
        let (output, same, valid, after) =
          append-Leaves c.m_output_buffer bytes len v.output there room in
        rw (yet, same)
          (arrives-Moves _ c.m_input_buffer output (take len bytes) [] v.input valid (ground arith)
            (sym after))
    | inr other ↦ rw other (still-Moves c (refl, refl))
  ]

  pub send-Moves :
      (bytes : List ℕ) (len : ℕ)
      → IsRoom c bytes len
      → Moves c (send c true bytes len) (accepted c bytes len) []
  unfolding send
  send-Moves bytes len room = elim (Bool-cases (is_connected c.m_state)) [
    | inl yet ↦ rw yet (rw yet at send_in_loop-Moves bytes len room)
    | inr other ↦ rw other (still-Moves c (refl, refl))
  ]

  pub handle_read-Moves :
      (stack bytes : List ℕ)
      → length c.m_input_buffer.m_buf + length bytes ≤ max_size
      → Moves c (handle_read c stack (got bytes)) [] []
  unfolding handle_read
  handle_read-Moves stack bytes room =
      let (input, same, valid, after) =
        read_from_fd-Leaves c.m_input_buffer stack bytes v.input room in
      rw same (
        arrives-Moves _ input c.m_output_buffer [] [] valid v.output
          (after_read-Keeps (record c { m_input_buffer = input }) (got bytes))
          (append-nil (contents c.m_output_buffer)))

  pub handle_write-Moves :
      (r : WriteResult)
      → taken r ≤ length (contents c.m_output_buffer)
      → Moves c (handle_write c r) [] (written c (writable r))
  unfolding handle_write written
  handle_write-Moves r h = elim (Bool-cases (is_connected c.m_state)) [
    | inl yet ↦
        let (output, same, valid, after) = write_to_fd-Leaves c.m_output_buffer r v.output h in
        rw (yet, same)
          (arrives-Moves _ c.m_input_buffer output [] (take (taken r) (contents c.m_output_buffer))
            v.input valid
            (after_write-Keeps (record c { m_output_buffer = output })
              (write_count c.m_output_buffer r) (write_error c.m_output_buffer r))
            (append-nil (contents c.m_output_buffer)
              ∙ sym (take-append-drop (taken r) (contents c.m_output_buffer))
              ∙ ap (λ x. take (taken r) (contents c.m_output_buffer) ++ x) (sym after)))
    | inr other ↦ rw other (still-Moves c (refl, refl))
  ]

  pub consumes-Moves :
      (n : ℕ) → n ≤ length (contents c.m_input_buffer) → Moves c (step c (consumes n)) [] []
  unfolding step
  consumes-Moves n h =
      let (input, same, valid, after) = retrieve-Leaves c.m_input_buffer n v.input h in
      rw same (
        arrives-Moves _ input c.m_output_buffer [] [] valid v.output (refl, refl)
          (append-nil (contents c.m_output_buffer)))

  pub run_functor-Moves :
      (f : Functor) (fs : List Functor) (memory : List ℕ)
      → IsNextRoom c (f ∷ fs) memory
      → Moves c (run_functor c f memory) (accepted_next c (f ∷ fs) memory) []
  unfolding run_functor
  run_functor-Moves (later_send len) fs memory room = send_in_loop-Moves memory len room
  run_functor-Moves later_shutdown fs memory room = still-Moves _ (shutdown_in_loop-Keeps c)
  run_functor-Moves later_force_close fs memory room = still-Moves _ (force_close_in_loop-Keeps c)
