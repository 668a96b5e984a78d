-- ===== src/Tests/Connection.antt =====
-- Net/TcpConnection.cpp at concrete inputs: a connection is established, is given three bytes to send,
-- and writes two of them.
use turbo_core_dist_ai_clush.Prelude.{
  ℕ, ◌+◌, ◌≡◌, ◌≤◌, ◌⊎◌, refl, true, false, List, [], ◌∷◌, ◌++◌, none, some, arith, replicate,
  if◌then◌else◌, ◌==◌,
}
use turbo_core_dist_ai_clush.Buffer
use turbo_core_dist_ai_clush.Buffer.{wrote}
use turbo_core_dist_ai_clush.Buffer.Valid.{contents}
use turbo_core_dist_ai_clush.Net.Connection
use turbo_core_dist_ai_clush.Net.Connection.{
  TcpConnection, connected, disconnecting, disconnected, connection_callback, close_callback,
  new_connection, shutdown,
}
use turbo_core_dist_ai_clush.Net.Connection.Steps.{
  all_written, AllPossible, IsPossible, established, hung_up, sends, writable, forces_close,
  runs_next, run_next, step, Run, stop, go, late, lates,
}
use turbo_core_dist_ai_clush.Net.Connection.Moves.{IsFit}
use turbo_core_dist_ai_clush.Net.Connection.Stream.{EndsWell, EndsBadly, step-Moves}
use turbo_core_dist_ai_clush.Net.Connection.Promises.{
  promises_after, IsIntact, all_promised, AllIntact, all_written-all_promised,
}
use turbo_core_dist_ai_clush.Net.Connection.Unsent.{shutdown-all_written}
use turbo_core_dist_ai_clush.Net.Channel.{no_revents, new_channel, with_reading, has_no_events}
use turbo_core_dist_ai_clush.Net.Poller.Watches.{update_channel_lem, update_channel-close_fd}
use turbo_core_dist_ai_clush.Prelude.NatMap
use turbo_core_dist_ai_clush.Net.Connection.Sound.{closes, connections, IsSound, rank, stage}
use turbo_core_dist_ai_clush.Net.Connection.Lifetime.{Run-IsSound, Run-forward}
use turbo_core_dist_ai_clush.Net.Poller
use turbo_core_dist_ai_clush.Net.Poller.{new_poller, is_some, close_fd, update_channel}

abbrev start_of_life : TcpConnection
start_of_life = new_connection new_poller 0 5

abbrev three : List ℕ
three = 1 ∷ 2 ∷ 3 ∷ []

-- It is connected and has three bytes to write.
abbrev pub connected_state : TcpConnection
connected_state = record {
  m_state = connected;
  m_sockfd = some 5;
  m_channel = record {
    m_fd = 5;
    m_events = record { reads = true; writes = true };
    m_revents = no_revents;
    m_added = true;
  };
  m_address = 0;
  m_input_buffer = record { m_buf = replicate 1024 0; m_read_idx = 0; m_write_idx = 0 };
  m_output_buffer = record { m_buf = three ++ replicate 1021 0; m_read_idx = 0; m_write_idx = 3 };
  m_poller = record {
    m_fd_to_channel = (5, 0) ∷ [];
    epoll_set = (5, record { reads = true; writes = true }) ∷ [];
    m_events_size = 128;
  };
  m_pending_functors = [];
  calls = connection_callback ∷ [];
}

-- The kernel took two of them.
abbrev written_state : TcpConnection
written_state = record connected_state {
  m_output_buffer = record { m_buf = three ++ replicate 1021 0; m_read_idx = 2; m_write_idx = 3 };
}

sending : Run start_of_life connected_state
unfolding step new_connection Connection.connect_established Connection.send Connection.send_in_loop
    Connection.handle_write Connection.after_write Poller.update_channel Poller.epoll_ctl_add
    Poller.epoll_ctl_mod Buffer.append Buffer.ensure_writable_bytes Buffer.copy_to Buffer.source
    Buffer.new_buffer Buffer.write_to_fd Buffer.retrieve NatMap.find NatMap.assign
sending = go established _ refl (go (sends true three 3) _ refl stop)

writing : Run connected_state written_state
unfolding step new_connection Connection.connect_established Connection.send Connection.send_in_loop
    Connection.handle_write Connection.after_write Poller.update_channel Poller.epoll_ctl_add
    Poller.epoll_ctl_mod Buffer.append Buffer.ensure_writable_bytes Buffer.copy_to Buffer.source
    Buffer.new_buffer Buffer.write_to_fd Buffer.retrieve NatMap.find NatMap.assign
writing = go (writable (wrote 2)) _ refl stop

-- The same, where another thread sends: the bytes are kept where they were when its functor runs.
posting : Run start_of_life connected_state
unfolding step run_next new_connection Connection.connect_established Connection.run_functor
    Connection.send_in_loop Poller.update_channel Poller.epoll_ctl_add Poller.epoll_ctl_mod
    Buffer.append Buffer.ensure_writable_bytes Buffer.copy_to Buffer.source Buffer.new_buffer
    NatMap.find NatMap.assign
posting = go established _ refl (go (sends false three 3) _ refl (go (runs_next three) _ refl stop))

-- The connection ends while another thread is behind its test in `ForceClose`; the end is told twice.
abbrev told_twice : TcpConnection
told_twice = record start_of_life {
  m_state = disconnected;
  m_sockfd = none;
  calls = connection_callback ∷ close_callback ∷ close_callback ∷ [];
}

racing : Run start_of_life told_twice
unfolding step run_next new_connection Connection.connect_established Connection.handle_close
    Connection.run_functor Connection.force_close_tested Connection.force_close_in_loop
    Poller.update_channel Poller.remove_channel Poller.epoll_ctl_add Poller.epoll_ctl_del
    Poller.close_fd Buffer.new_buffer NatMap.find NatMap.assign NatMap.erase
racing =
    go established _ refl
      (go hung_up _ refl (go (forces_close false) _ refl (go (runs_next []) _ refl stop)))

Run-IsSound_example : IsSound 1 told_twice
unfolding lates late racing
Run-IsSound_example = Run-IsSound new_poller 0 5 told_twice racing

Run-forward_example :
    (stage connected_state.m_state ≤ stage written_state.m_state)
    × (rank connected_state.m_state + lates sending 0
        ≤ rank written_state.m_state + lates writing (lates sending 0))
Run-forward_example = Run-forward new_poller 0 5 connected_state written_state sending writing

posting-AllPossible : AllPossible posting
unfolding AllPossible IsPossible posting new_connection Buffer.new_buffer
posting-AllPossible = (refl, (tt, ((omega arith, omega arith), tt)))

posting-AllIntact : AllIntact posting []
unfolding AllIntact IsIntact promises_after posting
posting-AllIntact = (tt, (refl, (refl, tt)))

all_written-all_promised_example :
    all_written posting ++ contents connected_state.m_output_buffer ≡ all_promised posting []
all_written-all_promised_example =
    all_written-all_promised new_poller 0 5 connected_state posting posting-AllPossible
      posting-AllIntact

connected_state-IsFit : IsFit connected_state
connected_state-IsFit = record {
  input = record { read_le = omega arith; write_le = omega arith; fits = omega arith };
  output = record { read_le = omega arith; write_le = omega arith; fits = omega arith };
}

wrote-IsPossible : IsPossible connected_state (writable (wrote 2))
unfolding IsPossible
wrote-IsPossible = omega arith

step-Moves_example :
    EndsWell connected_state (writable (wrote 2)) ⊎ EndsBadly connected_state (writable (wrote 2))
step-Moves_example =
    step-Moves connected_state (writable (wrote 2)) connected_state-IsFit wrote-IsPossible

-- It is shut down, and its socket becomes writable.
abbrev shut_state : TcpConnection
shut_state = record connected_state { m_state = disconnecting }

shutting : Run (shutdown connected_state true) shut_state
unfolding step shutdown Connection.shutdown_in_loop Connection.handle_write
shutting = go (writable (wrote 3)) _ refl stop

shutting-AllPossible : AllPossible shutting
unfolding AllPossible IsPossible shutting shutdown Connection.shutdown_in_loop
shutting-AllPossible = (omega arith, tt)

connected_state-IsSound : IsSound 0 connected_state
unfolding closes connections
connected_state-IsSound = ground arith

shutdown-all_written_example :
    ((shutdown connected_state true).m_sockfd ≡ connected_state.m_sockfd)
    × (all_written shutting ≡ [])
    × (contents shut_state.m_output_buffer ≡ contents connected_state.m_output_buffer)
shutdown-all_written_example =
    shutdown-all_written 0 connected_state shut_state shutting connected_state-IsSound
      connected_state-IsFit refl (omega arith) shutting-AllPossible

update_channel_lem_example :
    let c = with_reading true (new_channel 7) in
    (NatMap.find (update_channel new_poller 3 c).0.epoll_set 7 ≡ (
      if c.m_fd == 7
      then (if has_no_events c then none else some c.m_events)
      else NatMap.find new_poller.epoll_set 7))
    × (is_some (NatMap.find (update_channel new_poller 3 c).0.epoll_set 7)
        ≡ is_some (NatMap.find (update_channel new_poller 3 c).0.m_fd_to_channel 7))
unfolding NatMap.find
update_channel_lem_example =
    update_channel_lem new_poller 3 (with_reading true (new_channel 7)) 7 (λ fd. refl)

update_channel-close_fd_example :
    (NatMap.find
        (update_channel
          (close_fd connected_state.m_poller 5)
          9
          (with_reading true (new_channel 5))).0.epoll_set
        5
      ≡ none)
    × (NatMap.find
          (update_channel
            (close_fd connected_state.m_poller 5)
            9
            (with_reading true (new_channel 5))).0.m_fd_to_channel
          5
        ≡ some 0)
unfolding NatMap.find
update_channel-close_fd_example =
    update_channel-close_fd connected_state.m_poller 9 0 (with_reading true (new_channel 5)) refl
      refl
