-- ===== src/Net/Connection/Stream.antt =====
-- The bytes that a connection is given to send, and those that it writes.
use turbo_core_dist_ai_clush.Prelude.{
  ℕ, ◌≡◌, ◌⊎◌, inl, inr, length, ◌==◌, if◌then◌else◌, refl, ap, ◌∙◌, sym, true, false, List, [],
  ◌∷◌, ◌++◌, arith, length-replicate, append-nil, append_assoc, subst,
}
use turbo_core_dist_ai_clush.Prelude.Size.{ok, length_error, undefined, ok-injective}
use turbo_core_dist_ai_clush.Buffer.{new_buffer, k_initial_size, extra_size, read_failed, got}
use turbo_core_dist_ai_clush.Buffer.ReadError.{read_from_fd-read_failed}
use turbo_core_dist_ai_clush.Buffer.Valid.{IsValid, contents}
use turbo_core_dist_ai_clush.Net.Connection.{
  connecting, TcpConnection, Functor, later_send, later_shutdown, later_force_close,
  connect_established, handle_error, new_connection, handle_read, shutdown_tested,
  force_close_tested,
}
use turbo_core_dist_ai_clush.Net.Connection.Steps.{
  Event, established, destroyed, hung_up, failed, readable, writable, sends, shuts_down,
  forces_close, runs_next, consumes, step, run_next, Run, stop, go, IsNextRoom, IsPossible,
  AllPossible, fails_to_read, accepted_next, offered, written, all_offered, all_written,
}
use turbo_core_dist_ai_clush.Net.Poller.{EpollPoller}
use turbo_core_dist_ai_clush.Net.Connection.Moves.{
  IsFit, handle_close-Keeps, connect_destroyed-Keeps, shutdown-Keeps, force_close-Keeps, Moves,
  still-Moves, send-Moves, handle_read-Moves, handle_write-Moves, consumes-Moves, run_functor-Moves,
}

run_next-Moves :
    (c : TcpConnection) (fs : List Functor) (memory : List ℕ)
    → IsFit c
    → IsNextRoom c fs memory
    → Moves c (run_next c fs memory) (accepted_next c fs memory) []
unfolding run_next
run_next-Moves c [] memory v room = still-Moves c v c (refl, refl)
run_next-Moves c (later_send len ∷ fs) memory v room =
    run_functor-Moves (record c { m_pending_functors = fs })
      (record { input = v.input; output = v.output }) (later_send len) fs memory room
run_next-Moves c (later_shutdown ∷ fs) memory v room =
    run_functor-Moves (record c { m_pending_functors = fs })
      (record { input = v.input; output = v.output }) later_shutdown fs memory room
run_next-Moves c (later_force_close ∷ fs) memory v room =
    run_functor-Moves (record c { m_pending_functors = fs })
      (record { input = v.input; output = v.output }) later_force_close fs memory room

connect_established-Moves :
    (c : TcpConnection) → IsFit c → c.m_state ≡ connecting → Moves c (connect_established c) [] []
unfolding connect_established
connect_established-Moves c v new = rw new (still-Moves c v _ (refl, refl))

-- Where `readv` fails the handler ends in no value, as `ReadFromFd` does.
handle_read-failed :
    (c : TcpConnection) (stack : List ℕ) (errno : ℕ)
    → IsFit c
    → length stack ≡ extra_size
    → handle_read c stack (read_failed errno)
      ≡ (if c.m_input_buffer.m_write_idx == 0 then length_error else undefined)
unfolding handle_read
handle_read-failed c stack errno v h =
    rw (read_from_fd-read_failed c.m_input_buffer stack errno v.input h) (ground arith)

-- A step that is not a failed read ends well: it keeps both buffers valid, and what waited to be written
-- and what the step was given to send are what it wrote and what waits behind it.
abbrev pub EndsWell : TcpConnection → Event → Type 0
EndsWell c e = (fails_to_read e ≡ false) × Moves c (step c e) (offered c e) (written c e)

-- A failed read.
abbrev pub EndsBadly : TcpConnection → Event → Type 0
EndsBadly c e =
    (fails_to_read e ≡ true)
    × (step c e ≡ (if c.m_input_buffer.m_write_idx == 0 then length_error else undefined))

-- Of a step for which the bytes fit into memory, the kernel takes no more than it is given, a message
-- callback retrieves no more than there is, `ConnectEstablished` finds a new connection, and a read that
-- fails has a buffer on the stack of its size: where it is not a read that fails, it ends in a value, so
-- that no assertion fails, nothing is thrown and no access is out of bounds; it keeps both buffers
-- valid; and what waited to be written and what it was given to send, in this order, are what it wrote
-- and what waits behind it. Where `readv` fails, the step ends in a `std::length_error` or an access out
-- of bounds.
pub step-Moves :
    (c : TcpConnection) (e : Event) → IsFit c → IsPossible c e → EndsWell c e ⊎ EndsBadly c e
unfolding step handle_error offered written IsPossible shutdown_tested force_close_tested
step-Moves c established v p = inl (refl, connect_established-Moves c v p)
step-Moves c destroyed v p = inl (refl, still-Moves c v _ (connect_destroyed-Keeps c))
step-Moves c hung_up v p = inl (refl, still-Moves c v _ (handle_close-Keeps c))
step-Moves c failed v p = inl (refl, still-Moves c v _ (handle_close-Keeps c))
step-Moves c (readable stack (read_failed errno)) v p =
    inr (refl, handle_read-failed c stack errno v p)
step-Moves c (readable stack (got bytes)) v p = inl (refl, handle_read-Moves c v stack bytes p)
step-Moves c (writable r) v p = inl (refl, handle_write-Moves c v r p)
step-Moves c (sends true bytes len) v p = inl (refl, send-Moves c v bytes len p)
step-Moves c (sends false bytes len) v p = inl (refl, still-Moves c v _ (refl, refl))
step-Moves c (shuts_down true) v p = inl (refl, still-Moves c v _ (shutdown-Keeps c))
step-Moves c (shuts_down false) v p = inl (refl, still-Moves c v _ (refl, refl))
step-Moves c (forces_close true) v p = inl (refl, still-Moves c v _ (force_close-Keeps c))
step-Moves c (forces_close false) v p = inl (refl, still-Moves c v _ (refl, refl))
step-Moves c (runs_next memory) v p = inl (refl, run_next-Moves c c.m_pending_functors memory v p)
step-Moves c (consumes n) v p = inl (refl, consumes-Moves c v n p)

-- A step that ended in a value ended well.
step-ok :
    (c c' : TcpConnection) (e : Event)
    → IsFit c
    → IsPossible c e
    → step c e ≡ ok c'
    → Moves c (step c e) (offered c e) (written c e)
step-ok c c' e v p same = elim (step-Moves c e v p) [
  | inl (reads, moves) ↦ moves
  | inr (fails, bad) ↦ absurd (ground (arith, sym bad ∙ same))
]

pub Run-stream :
    {c c' : TcpConnection} (r : Run c c')
    → IsFit c
    → AllPossible r
    → contents c.m_output_buffer ++ all_offered r ≡ all_written r ++ contents c'.m_output_buffer
unfolding all_offered all_written AllPossible
Run-stream {c = c} stop v p = append-nil (contents c.m_output_buffer)
Run-stream {c = c} {c'} (go e c₁ same more) v (now, later) =
    let (d, ends, fit, first) = step-ok c c₁ e v now same in
    let at : d ≡ c₁ = ok-injective (sym ends ∙ same) in
    sym (append_assoc (contents c.m_output_buffer) (offered c e) (all_offered more))
    ∙ ap (λ x. x ++ all_offered more)
        (first ∙ ap (λ x. written c e ++ contents x.m_output_buffer) at)
    ∙ append_assoc (written c e) (contents c₁.m_output_buffer) (all_offered more)
    ∙ ap (λ x. written c e ++ x) (Run-stream more (subst IsFit at fit) later)
    ∙ sym (append_assoc (written c e) (all_written more) (contents c'.m_output_buffer))

new_buffer-IsValid : IsValid (new_buffer k_initial_size)
unfolding new_buffer
new_buffer-IsValid = ground (arith, length-replicate 1024 (let byte : ℕ = 0 in byte))

new_connection-IsFit : (p : EpollPoller) (address fd : ℕ) → IsFit (new_connection p address fd)
unfolding new_connection
new_connection-IsFit p address fd = record {
  input = new_buffer-IsValid;
  output = new_buffer-IsValid;
}

pub Run-offered :
    (p : EpollPoller) (address fd : ℕ) (c : TcpConnection) (r : Run (new_connection p address fd) c)
    → AllPossible r
    → all_written r ++ contents c.m_output_buffer ≡ all_offered r
unfolding new_connection new_buffer
Run-offered p address fd c r possible =
    sym (Run-stream r (new_connection-IsFit p address fd) possible)
