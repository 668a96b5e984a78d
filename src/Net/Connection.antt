-- ===== src/Net/Connection.antt =====
-- `TcpConnection` of Net/TcpConnection.h and Net/TcpConnection.cpp, with the poller that its loop
-- keeps and the functors that other threads queue for it. What a callback does is a step of its own,
-- behind the handler's; that it was called is an entry of `calls`. All four callbacks are set.
pub mod Steps
pub mod Sound
pub mod Lifetime
pub mod Moves
pub mod Stream
pub mod Unsent
pub mod Promises
use turbo_core_dist_ai_clush.Prelude.{
  ℕ, Bool, true, false, not, ◌&&◌, ◌||◌, List, [], ◌∷◌, ◌++◌, Option, none, some, if◌then◌else◌,
  ◌==◌, ltb, take,
}
use turbo_core_dist_ai_clush.Prelude.Size.{Outcome, ok, ◌>>=◌, ◌>>◌, assert}
use turbo_core_dist_ai_clush.Buffer.{
  Buffer, k_initial_size, new_buffer, readable_bytes, append, ReadResult, read_failed, got,
  read_from_fd, WriteResult, write_failed, wrote, write_to_fd,
}
use turbo_core_dist_ai_clush.Net.Channel.{
  Channel, new_channel, with_reading, with_writing, with_nothing, is_writing,
}
use turbo_core_dist_ai_clush.Net.Poller.{EpollPoller, close_fd, update_channel, remove_channel}

pub data ConnectionState : Type 0 where
  connecting connected disconnecting disconnected : ConnectionState

pub data Call : Type 0 where
  connection_callback message_callback write_complete_callback close_callback : Call

-- A queued call; that of `SendInLoop` keeps the pointer and the length, not the bytes.
pub data Functor : Type 0 where
  later_send : ℕ → Functor
  later_shutdown later_force_close : Functor

-- `m_sockfd` is `m_socket`'s, none after its `Close`; `m_address` is the channel's.
pub record TcpConnection : Type 0 where
  pub m_state : ConnectionState
  pub m_sockfd : Option ℕ
  pub m_channel : Channel
  pub m_address : ℕ
  pub m_input_buffer : Buffer
  pub m_output_buffer : Buffer
  pub m_poller : EpollPoller
  pub m_pending_functors : List Functor
  pub calls : List Call

unfoldable pub new_connection : EpollPoller → ℕ → ℕ → TcpConnection
new_connection poller address fd = record {
  m_state = connecting;
  m_sockfd = some fd;
  m_channel = new_channel fd;
  m_address = address;
  m_input_buffer = new_buffer k_initial_size;
  m_output_buffer = new_buffer k_initial_size;
  m_poller = poller;
  m_pending_functors = [];
  calls = [];
}

abbrev pub is_connected : ConnectionState → Bool
is_connected connecting = false
is_connected connected = true
is_connected disconnecting = false
is_connected disconnected = false

-- `m_state == Connected || m_state == Disconnecting`
abbrev pub is_open : ConnectionState → Bool
is_open connecting = false
is_open connected = true
is_open disconnecting = true
is_open disconnected = false

abbrev pub is_connecting : ConnectionState → Bool
is_connecting connecting = true
is_connecting connected = false
is_connecting disconnecting = false
is_connecting disconnected = false

abbrev pub is_disconnected : ConnectionState → Bool
is_disconnected connecting = false
is_disconnected connected = false
is_disconnected disconnecting = false
is_disconnected disconnected = true

-- EAGAIN and EWOULDBLOCK are 11 on Linux.
abbrev pub is_normal_would_block : ℕ → Bool
is_normal_would_block err = err == 11 || err == 11

abbrev pub called : Call → TcpConnection → TcpConnection
called call c = record c { calls = c.calls ++ (call ∷ []) }

-- A change of the mask, with the `UpdateChannel` that follows it.
abbrev pub watch : Channel → TcpConnection → TcpConnection
watch channel c = record c {
  m_poller = (update_channel c.m_poller c.m_address channel).0;
  m_channel = (update_channel c.m_poller c.m_address channel).1;
}

-- `if (m_channel->IsAdded()) m_loop->RemoveChannel(m_channel.get())`
abbrev pub unwatch : TcpConnection → TcpConnection
unwatch c = record c {
  m_poller =
      (if c.m_channel.m_added then (remove_channel c.m_poller c.m_channel).0 else c.m_poller);
  m_channel =
      (if c.m_channel.m_added then (remove_channel c.m_poller c.m_channel).1 else c.m_channel);
}

abbrev pub close_in : EpollPoller → Option ℕ → EpollPoller
close_in p none = p
close_in p (some fd) = close_fd p fd

-- `m_socket.Close()`
abbrev pub close_socket : TcpConnection → TcpConnection
close_socket c = record c { m_poller = close_in c.m_poller c.m_sockfd; m_sockfd = none }

abbrev pub to_state : ConnectionState → TcpConnection → TcpConnection
to_state s c = record c { m_state = s }

unfoldable pub connect_established : TcpConnection → Outcome TcpConnection
connect_established c = do
  assert (is_connecting c.m_state)
  ok (called connection_callback (watch (with_reading true c.m_channel) (to_state connected c)))

unfoldable pub connect_destroyed : TcpConnection → TcpConnection
connect_destroyed c =
    if is_open c.m_state
    then close_socket (unwatch (watch (with_nothing c.m_channel) (to_state disconnected c)))
    else c

unfoldable pub handle_close : TcpConnection → TcpConnection
handle_close c =
    if is_disconnected c.m_state
    then c
    else close_socket (
        called close_callback
          (unwatch (watch (with_nothing c.m_channel) (to_state disconnected c))))

unfoldable pub handle_error : TcpConnection → TcpConnection
handle_error c = handle_close c

-- The branches on the count that `ReadFromFd` returned.
unfoldable pub after_read : TcpConnection → ReadResult → TcpConnection
after_read c (read_failed err) = if not (is_normal_would_block err) then handle_close c else c
after_read c (got []) = handle_close c
after_read c (got (byte ∷ bytes)) = called message_callback c

-- `stack` is what the buffer on the stack of `ReadFromFd` holds.
unfoldable pub handle_read : TcpConnection → List ℕ → ReadResult → Outcome TcpConnection
handle_read c stack r = do
  input ← read_from_fd c.m_input_buffer stack r
  ok (after_read (record c { m_input_buffer = input }) r)

-- What `WriteToFd` returns, where it is positive, and the error that it stores.
abbrev pub write_count : Buffer → WriteResult → ℕ
write_count b (write_failed errno) = 0
write_count b (wrote n) = if readable_bytes b == 0 then 0 else n

abbrev pub write_error : Buffer → WriteResult → ℕ
write_error b (write_failed errno) = if readable_bytes b == 0 then 0 else errno
write_error b (wrote n) = 0

-- Where all is written, the write event is turned off and the callback is called.
abbrev pub after_all : TcpConnection → TcpConnection
after_all c =
    if readable_bytes c.m_output_buffer == 0
    then called write_complete_callback (watch (with_writing false c.m_channel) c)
    else c

-- The branches on the count `n` and the error `err` behind `WriteToFd`.
unfoldable pub after_write : TcpConnection → ℕ → ℕ → TcpConnection
after_write c n err =
    if ltb 0 n
    then (if not (err == 0) && not (is_normal_would_block err)
        then handle_close (after_all c)
        else after_all c)
    else if not (is_normal_would_block err)
    then handle_close c
    else c

unfoldable pub handle_write : TcpConnection → WriteResult → Outcome TcpConnection
handle_write c r = if not (is_connected c.m_state) then ok c else (do
  output ← write_to_fd c.m_output_buffer r
  ok (
      after_write (record c { m_output_buffer = output }) (write_count c.m_output_buffer r)
        (write_error c.m_output_buffer r)))

unfoldable pub shutdown_in_loop : TcpConnection → TcpConnection
shutdown_in_loop c =
    if ltb 0 (readable_bytes c.m_output_buffer)
    then (if not (is_writing c.m_channel) then watch (with_writing true c.m_channel) c else c)
    else to_state disconnected (close_socket c)

unfoldable pub force_close_in_loop : TcpConnection → TcpConnection
force_close_in_loop c =
    if is_open c.m_state
    then called close_callback
        (close_socket (watch (with_nothing c.m_channel) (to_state disconnected c)))
    else c

-- The first `len` of the bytes that stand at `data` when it runs.
unfoldable pub send_in_loop : TcpConnection → List ℕ → ℕ → Outcome TcpConnection
send_in_loop c bytes len = if not (is_connected c.m_state) then ok c else (do
  output ← append c.m_output_buffer bytes len
  let sent = record c { m_output_buffer = output }
  ok (if not (is_writing c.m_channel) then watch (with_writing true c.m_channel) sent else sent))

-- `QueueInLoop`, of `RunInLoop` in another thread
abbrev pub queue_in_loop : Functor → TcpConnection → TcpConnection
queue_in_loop f c = record c { m_pending_functors = c.m_pending_functors ++ (f ∷ []) }

-- `in_loop` tells whether the caller is the loop's thread, where `RunInLoop` calls at once.
unfoldable pub send : TcpConnection → Bool → List ℕ → ℕ → Outcome TcpConnection
send c in_loop bytes len =
    if not (is_connected c.m_state)
    then ok c
    else if in_loop
    then send_in_loop c bytes len
    else ok (queue_in_loop (later_send len) c)

-- What `Shutdown` and `ForceClose` of another thread do behind their test of `m_state`. It has no lock,
-- so other steps can come in between.
unfoldable pub shutdown_tested : TcpConnection → TcpConnection
shutdown_tested c = queue_in_loop later_shutdown (to_state disconnecting c)

unfoldable pub force_close_tested : TcpConnection → TcpConnection
force_close_tested c = queue_in_loop later_force_close (to_state disconnecting c)

-- Here and in `force_close` nothing comes between the test and the rest.
unfoldable pub shutdown : TcpConnection → Bool → TcpConnection
shutdown c in_loop =
    if is_connected c.m_state
    then (if in_loop then shutdown_in_loop (to_state disconnecting c) else shutdown_tested c)
    else c

unfoldable pub force_close : TcpConnection → Bool → TcpConnection
force_close c in_loop =
    if is_open c.m_state
    then (if in_loop then force_close_in_loop (to_state disconnecting c) else force_close_tested c)
    else c

-- A functor of the queue, when the loop runs it; `memory` is what then stands at the pointer of a send.
unfoldable pub run_functor : TcpConnection → Functor → List ℕ → Outcome TcpConnection
run_functor c (later_send len) memory = send_in_loop c memory len
run_functor c later_shutdown memory = ok (shutdown_in_loop c)
run_functor c later_force_close memory = ok (force_close_in_loop c)
