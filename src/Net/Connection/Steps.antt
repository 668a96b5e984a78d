-- ===== src/Net/Connection/Steps.antt =====
-- What happens to a connection, one step at a time: events of the loop, calls of any thread, and the
-- queued functors in their order.
use turbo_core_dist_ai_clush.Prelude.{
  ℕ, ◌+◌, ◌≤◌, ◌≡◌, Bool, true, false, List, [], ◌∷◌, ◌++◌, length, take, if◌then◌else◌,
}
use turbo_core_dist_ai_clush.Prelude.Size.{Outcome, ok, ◌>>=◌}
use turbo_core_dist_ai_clush.Buffer.{
  max_size, extra_size, ReadResult, read_failed, got, WriteResult, retrieve,
}
use turbo_core_dist_ai_clush.Buffer.Valid.{contents}
use turbo_core_dist_ai_clush.Buffer.Socket.{taken}
use turbo_core_dist_ai_clush.Net.Connection.{
  connecting, TcpConnection, Functor, later_send, later_shutdown, later_force_close, is_connected,
  connect_established, connect_destroyed, handle_close, handle_error, handle_read, handle_write,
  send, shutdown, shutdown_tested, force_close, force_close_tested, run_functor, queue_in_loop,
  is_disconnected,
}

-- `consumes` is what a message callback does with the input buffer: it retrieves that many bytes.
-- `sends`, `shuts_down` and `forces_close` with `true` are calls in the loop's thread. With `false` they
-- are the rest of a call of another thread, whose test of `m_state` was passed at any time before.
pub data Event : Type 0 where
  established destroyed hung_up failed : Event
  readable : List ℕ → ReadResult → Event
  writable : WriteResult → Event
  sends : Bool → List ℕ → ℕ → Event
  shuts_down forces_close : Bool → Event
  runs_next : List ℕ → Event
  consumes : ℕ → Event

-- The next functor of the queue, which the loop took out.
unfoldable pub run_next : TcpConnection → List Functor → List ℕ → Outcome TcpConnection
run_next c [] memory = ok c
run_next c (f ∷ fs) memory = run_functor (record c { m_pending_functors = fs }) f memory

unfoldable pub step : TcpConnection → Event → Outcome TcpConnection
step c established = connect_established c
step c destroyed = ok (connect_destroyed c)
step c hung_up = ok (handle_close c)
step c failed = ok (handle_error c)
step c (readable stack r) = handle_read c stack r
step c (writable r) = handle_write c r
step c (sends true bytes len) = send c true bytes len
step c (sends false bytes len) = ok (queue_in_loop (later_send len) c)
step c (shuts_down true) = ok (shutdown c true)
step c (shuts_down false) = ok (shutdown_tested c)
step c (forces_close true) = ok (force_close c true)
step c (forces_close false) = ok (force_close_tested c)
step c (runs_next memory) = run_next c c.m_pending_functors memory
step c (consumes n) = do
  input ← retrieve c.m_input_buffer n
  ok (record c { m_input_buffer = input })

-- The bytes are there, and they fit behind those that wait.
abbrev pub IsRoom : TcpConnection → List ℕ → ℕ → Type 0
IsRoom c bytes len = (len ≤ length bytes) × (c.m_output_buffer.m_write_idx + len ≤ max_size)

abbrev pub IsNextRoom : TcpConnection → List Functor → List ℕ → Type 0
IsNextRoom c [] memory = Unit {0}
IsNextRoom c (later_send len ∷ fs) memory = IsRoom c memory len
IsNextRoom c (later_shutdown ∷ fs) memory = Unit {0}
IsNextRoom c (later_force_close ∷ fs) memory = Unit {0}

-- The bytes fit into memory, the kernel takes no more than it is given, a message callback retrieves
-- no more than there is, `ConnectEstablished` finds a new connection, and the buffer on the stack of
-- `ReadFromFd` has its size. `readv` may fail.
unfoldable pub IsPossible : TcpConnection → Event → Type 0
IsPossible c established = c.m_state ≡ connecting
IsPossible c (readable stack (read_failed errno)) = length stack ≡ extra_size
IsPossible c (readable stack (got bytes)) = length c.m_input_buffer.m_buf + length bytes ≤ max_size
IsPossible c (writable r) = taken r ≤ length (contents c.m_output_buffer)
IsPossible c (sends true bytes len) = IsRoom c bytes len
IsPossible c (runs_next memory) = IsNextRoom c c.m_pending_functors memory
IsPossible c (consumes n) = n ≤ length (contents c.m_input_buffer)
IsPossible c destroyed = Unit {0}
IsPossible c hung_up = Unit {0}
IsPossible c failed = Unit {0}
IsPossible c (sends false bytes len) = Unit {0}
IsPossible c (shuts_down in_loop) = Unit {0}
IsPossible c (forces_close in_loop) = Unit {0}

-- The step is a read that fails.
abbrev pub fails_to_read : Event → Bool
fails_to_read (readable stack (read_failed errno)) = true
fails_to_read (readable stack (got bytes)) = false
fails_to_read established = false
fails_to_read destroyed = false
fails_to_read hung_up = false
fails_to_read failed = false
fails_to_read (writable r) = false
fails_to_read (sends in_loop bytes len) = false
fails_to_read (shuts_down in_loop) = false
fails_to_read (forces_close in_loop) = false
fails_to_read (runs_next memory) = false
fails_to_read (consumes n) = false

-- The number of the late settings of another thread, those of a disconnected connection to
-- `Disconnecting`, when there were `n` before the step.
unfoldable pub late : TcpConnection → Event → ℕ → ℕ
late c (shuts_down false) n = if is_disconnected c.m_state then n + 1 else n
late c (forces_close false) n = if is_disconnected c.m_state then n + 1 else n
late c (shuts_down true) n = n
late c (forces_close true) n = n
late c established n = n
late c destroyed n = n
late c hung_up n = n
late c failed n = n
late c (readable stack r) n = n
late c (writable r) n = n
late c (sends in_loop bytes len) n = n
late c (runs_next memory) n = n
late c (consumes n') n = n

-- The functors that wait behind a step.
abbrev pub tail : List Functor → List Functor
tail [] = []
tail (f ∷ fs) = fs

unfoldable pub queue_after : TcpConnection → Event → List Functor
queue_after c (sends false bytes len) = c.m_pending_functors ++ (later_send len ∷ [])
queue_after c (shuts_down false) = c.m_pending_functors ++ (later_shutdown ∷ [])
queue_after c (forces_close false) = c.m_pending_functors ++ (later_force_close ∷ [])
queue_after c (runs_next memory) = tail c.m_pending_functors
queue_after c (sends true bytes len) = c.m_pending_functors
queue_after c (shuts_down true) = c.m_pending_functors
queue_after c (forces_close true) = c.m_pending_functors
queue_after c established = c.m_pending_functors
queue_after c destroyed = c.m_pending_functors
queue_after c hung_up = c.m_pending_functors
queue_after c failed = c.m_pending_functors
queue_after c (readable stack r) = c.m_pending_functors
queue_after c (writable r) = c.m_pending_functors
queue_after c (consumes n) = c.m_pending_functors

-- A finite run.
pub data Run : TcpConnection → TcpConnection → Type 0 where
  stop : {c : TcpConnection} → Run c c
  go :
      {c : TcpConnection} (e : Event) (c₁ : TcpConnection) {c₂ : TcpConnection}
      → step c e ≡ ok c₁
      → Run c₁ c₂
      → Run c c₂

-- The bytes that a send in the loop's thread hands over: none unless the connection is connected.
abbrev pub accepted : TcpConnection → List ℕ → ℕ → List ℕ
accepted c bytes len = if is_connected c.m_state then take len bytes else []

abbrev pub accepted_next : TcpConnection → List Functor → List ℕ → List ℕ
accepted_next c [] memory = []
accepted_next c (later_send len ∷ fs) memory = accepted c memory len
accepted_next c (later_shutdown ∷ fs) memory = []
accepted_next c (later_force_close ∷ fs) memory = []

unfoldable pub offered : TcpConnection → Event → List ℕ
offered c (sends true bytes len) = accepted c bytes len
offered c (runs_next memory) = accepted_next c c.m_pending_functors memory
offered c established = []
offered c destroyed = []
offered c hung_up = []
offered c failed = []
offered c (readable stack r) = []
offered c (writable r) = []
offered c (sends false bytes len) = []
offered c (shuts_down in_loop) = []
offered c (forces_close in_loop) = []
offered c (consumes n) = []

-- The bytes that the kernel takes.
unfoldable pub written : TcpConnection → Event → List ℕ
written c (writable r) =
    if is_connected c.m_state then take (taken r) (contents c.m_output_buffer) else []
written c established = []
written c destroyed = []
written c hung_up = []
written c failed = []
written c (readable stack r) = []
written c (sends in_loop bytes len) = []
written c (shuts_down in_loop) = []
written c (forces_close in_loop) = []
written c (runs_next memory) = []
written c (consumes n) = []

unfoldable pub all_offered : {c c' : TcpConnection} → Run c c' → List ℕ
all_offered stop = []
all_offered {c = c} (go e c₁ same more) = offered c e ++ all_offered more

unfoldable pub AllPossible : {c c' : TcpConnection} → Run c c' → Type 0
AllPossible stop = Unit {0}
AllPossible {c = c} (go e c₁ same more) = IsPossible c e × AllPossible more

unfoldable pub all_written : {c c' : TcpConnection} → Run c c' → List ℕ
all_written stop = []
all_written {c = c} (go e c₁ same more) = written c e ++ all_written more

-- The late settings, when there were `n` before the run.
unfoldable pub lates : {c c' : TcpConnection} → Run c c' → ℕ → ℕ
lates stop n = n
lates {c = c} (go e c₁ same more) n = lates more (late c e n)
