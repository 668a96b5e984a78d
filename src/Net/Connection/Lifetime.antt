-- ===== src/Net/Connection/Lifetime.antt =====
-- The states that a connection passes, and the callbacks that it makes.
use turbo_core_dist_ai_clush.Prelude.{
  ℕ, ◌+◌, ◌≤◌, ◌≡◌, refl, true, false, List, [], ◌∷◌, arith, subst, Bool-cases, inl, inr,
}
use turbo_core_dist_ai_clush.Prelude.Size.{ok, ok-injective, every_ok}
use turbo_core_dist_ai_clush.Buffer.{
  append, retrieve, write_to_fd, WriteResult, read_from_fd, ReadResult,
}
use turbo_core_dist_ai_clush.Net.Poller.{EpollPoller}
use turbo_core_dist_ai_clush.Net.Connection.{
  TcpConnection, is_connecting, connect_established, send, send_in_loop, run_functor, handle_read,
  handle_write, handle_error, new_connection, Functor, later_send, later_shutdown,
  later_force_close, is_connected, write_count, write_error, shutdown_tested, force_close_tested,
}
use turbo_core_dist_ai_clush.Net.Connection.Steps.{
  Event, established, destroyed, hung_up, failed, readable, writable, sends, shuts_down,
  forces_close, runs_next, consumes, step, run_next, Run, stop, go, late, lates, tail, queue_after,
}
use turbo_core_dist_ai_clush.Net.Connection.Sound.{
  rank, stage, closes, connections, IsSound, Advances, counts_lem, handle_close-Advances,
  connect_destroyed-Advances, shutdown_in_loop-Advances, force_close_in_loop-Advances,
  shutdown-Advances, force_close-Advances, after_read-Advances, after_write-Advances,
}

idle-Advances : (n : ℕ) (c : TcpConnection) → IsSound n c → Advances n c c
idle-Advances n c v = record {
  sound = v;
  forward = omega arith;
  onward = omega arith;
  same_queue = refl;
}

-- Steps whose end is a value of a chain.
module _ (n : ℕ) (c c' : TcpConnection) (v : IsSound n c) where
  to-Advances : (d : TcpConnection) → Advances n c d → ok d ≡ ok c' → Advances n c c'
  to-Advances d a e = subst (Advances n c) (ok-injective e) a

  connect_established-Advances : connect_established c ≡ ok c' → Advances n c c'
  unfolding connect_established
  connect_established-Advances e = elim (Bool-cases (is_connecting c.m_state)) [
    | inl new ↦
        to-Advances _ (ground (arith, new, v.told, v.is_closed, v.is_open, counts_lem c))
          (rw new at e)
    | inr old ↦ ground (arith, old, e)
  ]

  handle_read-Advances :
      (stack : List ℕ) (r : ReadResult) → handle_read c stack r ≡ ok c' → Advances n c c'
  unfolding handle_read
  handle_read-Advances stack r =
      every_ok (Advances n c) _ (read_from_fd c.m_input_buffer stack r) (λ input.
        let next =
          after_read-Advances n (record c { m_input_buffer = input }) r
            (record { told = v.told; is_closed = v.is_closed; is_open = v.is_open }) in
        to-Advances _ (record {
          sound = next.sound;
          forward = next.forward;
          onward = next.onward;
          same_queue = next.same_queue;
        }))

  handle_write-Advances : (r : WriteResult) → handle_write c r ≡ ok c' → Advances n c c'
  unfolding handle_write
  handle_write-Advances r e = elim (Bool-cases (is_connected c.m_state)) [
    | inl yet ↦
        every_ok (Advances n c) _ (write_to_fd c.m_output_buffer r)
          (λ output.
            let next =
              after_write-Advances n (record c { m_output_buffer = output })
                (write_count c.m_output_buffer r) (write_error c.m_output_buffer r)
                (record { told = v.told; is_closed = v.is_closed; is_open = v.is_open }) in
            to-Advances _ (record {
              sound = next.sound;
              forward = next.forward;
              onward = next.onward;
              same_queue = next.same_queue;
            }))
          (rw yet at e)
    | inr other ↦ to-Advances c (idle-Advances n c v) (rw other at e)
  ]

  send_in_loop-Advances :
      (bytes : List ℕ) (len : ℕ) → send_in_loop c bytes len ≡ ok c' → Advances n c c'
  unfolding send_in_loop
  send_in_loop-Advances bytes len e = elim (Bool-cases (is_connected c.m_state)) [
    | inl yet ↦
        every_ok (Advances n c) _ (append c.m_output_buffer bytes len)
          (λ output. to-Advances _ (ground (arith, v.told, v.is_closed, v.is_open))) (rw yet at e)
    | inr other ↦ to-Advances c (idle-Advances n c v) (rw other at e)
  ]

module _ (n : ℕ) (c c' : TcpConnection) (v : IsSound n c) where
  send-Advances : (bytes : List ℕ) (len : ℕ) → send c true bytes len ≡ ok c' → Advances n c c'
  unfolding send
  send-Advances bytes len e = elim (Bool-cases (is_connected c.m_state)) [
    | inl yet ↦ send_in_loop-Advances n c c' v bytes len (rw yet at e)
    | inr other ↦ to-Advances n c c' v c (idle-Advances n c v) (rw other at e)
  ]

  run_functor-Advances :
      (f : Functor) (memory : List ℕ) → run_functor c f memory ≡ ok c' → Advances n c c'
  unfolding run_functor
  run_functor-Advances (later_send len) memory e = send_in_loop-Advances n c c' v memory len e
  run_functor-Advances later_shutdown memory e =
      to-Advances n c c' v _ (shutdown_in_loop-Advances n c v) e
  run_functor-Advances later_force_close memory e =
      to-Advances n c c' v _ (force_close_in_loop-Advances n c v) e

-- What a step does to a connection; `n` counts the late settings before it and `m` those behind it.
pub record Goes (n m : ℕ) (c c' : TcpConnection) (queue : List Functor) : Type 0 where
  pub sound : IsSound m c'
  pub forward : rank c.m_state + n ≤ rank c'.m_state + m
  pub onward : stage c.m_state ≤ stage c'.m_state
  pub queued : c'.m_pending_functors ≡ queue

module _ (n : ℕ) (c c' : TcpConnection) (v : IsSound n c) where
  to-Goes : Advances n c c' → Goes n n c c' c.m_pending_functors
  to-Goes a = record {
    sound = a.sound;
    forward = omega (arith, a.forward);
    onward = a.onward;
    queued = a.same_queue;
  }

  run_next-Goes :
      (fs : List Functor) (memory : List ℕ)
      → c.m_pending_functors ≡ fs
      → run_next c fs memory ≡ ok c'
      → Goes n n c c' (tail fs)
  unfolding run_next
  run_next-Goes [] memory all e =
      subst (Goes n n c c') all (to-Goes (to-Advances n c c' v c (idle-Advances n c v) e))
  run_next-Goes (f ∷ fs) memory all e =
      let a =
        run_functor-Advances n (record c { m_pending_functors = fs }) c'
          (record { told = v.told; is_closed = v.is_closed; is_open = v.is_open }) f memory e in
      record {
        sound = a.sound;
        forward = omega (arith, a.forward);
        onward = a.onward;
        queued = a.same_queue;
      }

pub step-Goes :
    (n : ℕ) (c c' : TcpConnection) (e : Event)
    → IsSound n c
    → step c e ≡ ok c'
    → Goes n (late c e n) c c' (queue_after c e)
unfolding step handle_error late queue_after shutdown_tested force_close_tested
step-Goes n c c' established v h = to-Goes n c c' v (connect_established-Advances n c c' v h)
step-Goes n c c' destroyed v h =
    to-Goes n c c' v (to-Advances n c c' v _ (connect_destroyed-Advances n c v) h)
step-Goes n c c' hung_up v h =
    to-Goes n c c' v (to-Advances n c c' v _ (handle_close-Advances n c v) h)
step-Goes n c c' failed v h =
    to-Goes n c c' v (to-Advances n c c' v _ (handle_close-Advances n c v) h)
step-Goes n c c' (readable stack r) v h = to-Goes n c c' v (handle_read-Advances n c c' v stack r h)
step-Goes n c c' (writable r) v h = to-Goes n c c' v (handle_write-Advances n c c' v r h)
step-Goes n c c' (sends true bytes len) v h = to-Goes n c c' v (send-Advances n c c' v bytes len h)
step-Goes n c c' (shuts_down true) v h =
    to-Goes n c c' v (to-Advances n c c' v _ (shutdown-Advances n c v) h)
step-Goes n c c' (forces_close true) v h =
    to-Goes n c c' v (to-Advances n c c' v _ (force_close-Advances n c v) h)
step-Goes n c c' (sends false bytes len) v h =
    subst (λ d. Goes n n c d (queue_after c (sends false bytes len))) (ok-injective h)
      (ground (arith, v.told, v.is_closed, v.is_open))
step-Goes n c c' (shuts_down false) v h =
    subst (λ d. Goes n (late c (shuts_down false) n) c d (queue_after c (shuts_down false)))
      (ok-injective h) (ground (arith, v.told, v.is_closed, v.is_open))
step-Goes n c c' (forces_close false) v h =
    subst (λ d. Goes n (late c (forces_close false) n) c d (queue_after c (forces_close false)))
      (ok-injective h) (ground (arith, v.told, v.is_closed, v.is_open))
step-Goes n c c' (runs_next memory) v h = run_next-Goes n c c' v c.m_pending_functors memory refl h
step-Goes n c c' (consumes k) v h = to-Goes n c c' v (
    every_ok (Advances n c) _ (retrieve c.m_input_buffer k)
      (λ input. to-Advances n c c' v _ (ground (arith, v.told, v.is_closed, v.is_open))) h)

pub record RunGoes (n m : ℕ) (c c' : TcpConnection) : Type 0 where
  pub sound : IsSound m c'
  pub forward : rank c.m_state + n ≤ rank c'.m_state + m
  pub onward : stage c.m_state ≤ stage c'.m_state

pub Run-Goes :
    {c c' : TcpConnection} (r : Run c c') (n : ℕ) → IsSound n c → RunGoes n (lates r n) c c'
unfolding lates
Run-Goes {c = c} stop n v = record { sound = v; forward = omega arith; onward = omega arith }
Run-Goes {c = c} (go e c₁ same more) n v =
    let first = step-Goes n c c₁ e v same in
    let rest = Run-Goes more (late c e n) first.sound in
    record {
      sound = rest.sound;
      forward = omega (arith, first.forward, rest.forward);
      onward = omega (arith, first.onward, rest.onward);
    }

pub new_connection-IsSound :
    (p : EpollPoller) (address fd : ℕ) → IsSound 0 (new_connection p address fd)
unfolding new_connection closes connections
new_connection-IsSound p address fd = ground arith

-- At every time of a new connection's life: its connection callback was called at most once, and not
-- before it was connected, so that it is not called again for the connection's end, as the comment of
-- the class says it would be. Its close callback was called at most once, and once more for each time
-- that a Shutdown or ForceClose of another thread, which had passed its test before, set a
-- disconnected connection to disconnecting. The socket is closed where the connection is
-- disconnected, and, while no such late setting came, only there.
pub Run-IsSound :
    (p : EpollPoller) (address fd : ℕ) (c : TcpConnection) (r : Run (new_connection p address fd) c)
    → IsSound (lates r 0) c
Run-IsSound p address fd c r = (Run-Goes r 0 (new_connection-IsSound p address fd)).sound

-- Between any two times of a connection's life, the stages connecting, connected, and the end,
-- which is disconnecting or disconnected, are passed forward only. And the state itself, of the four,
-- goes back only by late settings of another thread, by one state for each: where none comes between
-- the two times it does not go back.
pub Run-forward :
    (p : EpollPoller) (address fd : ℕ) (c c' : TcpConnection)
    (r : Run (new_connection p address fd) c) (s : Run c c')
    → (stage c.m_state ≤ stage c'.m_state)
      × (rank c.m_state + lates r 0 ≤ rank c'.m_state + lates s (lates r 0))
Run-forward p address fd c c' r s =
    let later = Run-Goes s (lates r 0) (Run-IsSound p address fd c r) in
    (later.onward, later.forward)
