-- ===== src/Net/Connection/Unsent.antt =====
-- `Shutdown` while bytes wait in the output buffer: `HandleWrite` acts on a connected connection only.
use turbo_core_dist_ai_clush.Prelude.{
  subst, ℕ, ◌≤◌, ◌<◌, ◌≡◌, refl, ap, ◌∙◌, sym, true, false, List, [], ◌∷◌, ◌++◌, arith, length,
  append-nil,
}
use turbo_core_dist_ai_clush.Buffer.{readable_bytes}
use turbo_core_dist_ai_clush.Buffer.Valid.{IsValid, contents, readable_bytes-length}
use turbo_core_dist_ai_clush.Net.Connection.{
  connected, disconnecting, ConnectionState, Functor, later_send, later_shutdown, later_force_close,
  is_connected, TcpConnection, shutdown, shutdown_in_loop,
}
use turbo_core_dist_ai_clush.Net.Connection.Sound.{stage, IsSound, shutdown-Advances}
use turbo_core_dist_ai_clush.Net.Connection.Lifetime.{step-Goes}
use turbo_core_dist_ai_clush.Net.Connection.Steps.{
  Event, established, destroyed, hung_up, failed, readable, writable, sends, shuts_down,
  forces_close, runs_next, consumes, step, Run, stop, go, late, AllPossible, accepted_next, offered,
  written, all_offered, all_written,
}
use turbo_core_dist_ai_clush.Net.Connection.Moves.{shutdown-Keeps, IsFit}
use turbo_core_dist_ai_clush.Net.Connection.Stream.{Run-stream}

past_connected : (s : ConnectionState) → 2 ≤ stage s → is_connected s ≡ false
past_connected s h = ground (arith, h)

accepted_next-nil :
    (c : TcpConnection) (fs : List Functor) (memory : List ℕ)
    → is_connected c.m_state ≡ false
    → accepted_next c fs memory ≡ []
accepted_next-nil c [] memory h = refl
accepted_next-nil c (later_send len ∷ fs) memory h = rw h refl
accepted_next-nil c (later_shutdown ∷ fs) memory h = refl
accepted_next-nil c (later_force_close ∷ fs) memory h = refl

offered-nil : (c : TcpConnection) (e : Event) → is_connected c.m_state ≡ false → offered c e ≡ []
unfolding offered
offered-nil c (sends true bytes len) h = rw h refl
offered-nil c (runs_next memory) h = accepted_next-nil c c.m_pending_functors memory h
offered-nil c established h = refl
offered-nil c destroyed h = refl
offered-nil c hung_up h = refl
offered-nil c failed h = refl
offered-nil c (readable stack r) h = refl
offered-nil c (writable r) h = refl
offered-nil c (sends false bytes len) h = refl
offered-nil c (shuts_down t) h = refl
offered-nil c (forces_close t) h = refl
offered-nil c (consumes n) h = refl

written-nil : (c : TcpConnection) (e : Event) → is_connected c.m_state ≡ false → written c e ≡ []
unfolding written
written-nil c e h = ground (arith, h)

Run-quiet :
    {c c' : TcpConnection} (r : Run c c') (n : ℕ)
    → IsSound n c
    → 2 ≤ stage c.m_state
    → (all_offered r ≡ []) × (all_written r ≡ [])
unfolding all_offered all_written
Run-quiet stop n v h = (refl, refl)
Run-quiet {c = c} (go e c₁ same more) n v h =
    let next = step-Goes n c c₁ e v same in
    let (nothing, none) = Run-quiet more (late c e n) next.sound (omega (arith, h, next.onward)) in
    let away = past_connected c.m_state h in
    (rw (offered-nil c e away) nothing, rw (written-nil c e away) none)

-- What `Shutdown` makes of a connected connection whose output waits.
shutdown_lem :
    (c : TcpConnection)
    → c.m_state ≡ connected
    → 0 < readable_bytes c.m_output_buffer
    → ((shutdown c true).m_state ≡ disconnecting) × ((shutdown c true).m_sockfd ≡ c.m_sockfd)
unfolding shutdown shutdown_in_loop
shutdown_lem c alive waits = rw alive (ground (arith, waits))

-- Where a connected connection is shut down by its own loop's thread while bytes wait in the output
-- buffer, its socket stays open, and whatever happens after that, no byte of the output is ever
-- written: all that waited still waits.
pub shutdown-all_written :
    (n : ℕ) (c c' : TcpConnection) (r : Run (shutdown c true) c')
    → IsSound n c
    → IsFit c
    → c.m_state ≡ connected
    → 0 < length (contents c.m_output_buffer)
    → AllPossible r
    → ((shutdown c true).m_sockfd ≡ c.m_sockfd)
      × (all_written r ≡ [])
      × (contents c'.m_output_buffer ≡ contents c.m_output_buffer)
unfolding step
shutdown-all_written n c c' r v fit alive waits possible =
    let (state, socket) =
      shutdown_lem c alive (omega (arith, readable_bytes-length c.m_output_buffer fit.output)) in
    let (input, output) = shutdown-Keeps c in
    let quiet = Run-quiet r n (shutdown-Advances n c v).sound (omega (arith, ap stage state)) in
    let whole =
      Run-stream r
        (record {
          input = subst IsValid (sym input) fit.input;
          output = subst IsValid (sym output) fit.output;
        })
        possible in
    (
      socket,
      quiet.1,
      sym (
          ap contents (sym output)
          ∙ sym (append-nil (contents (shutdown c true).m_output_buffer))
          ∙ ap (λ x. contents (shutdown c true).m_output_buffer ++ x) (sym quiet.0)
          ∙ whole
          ∙ ap (λ x. x ++ contents c'.m_output_buffer) quiet.1),
    )
