-- ===== src/Net/Server.antt =====
-- `TcpServer` of Net/TcpServer.h and Net/TcpServer.cpp: the choice of a loop, and the table of the
-- live connections. A connection and a loop are numbers; what runs in another loop is queued there.
pub mod Loops
pub mod Table
use turbo_core_dist_ai_clush.Prelude.{
  ℕ, ◌+◌, ◌%◌, ◌^◌, Bool, true, false, List, [], ◌∷◌, ◌++◌, Option, none, some, if◌then◌else◌, ◌==◌,
}
use turbo_core_dist_ai_clush.Prelude.NatMap
use turbo_core_dist_ai_clush.Prelude.Size.{Outcome, ok, assert_failed, ◌>>=◌, ◌>>◌, assert}
use turbo_core_dist_ai_clush.Net.Poller.{is_some}

-- The main loop, or the sub loop with that index in `m_sub_loops`.
pub data WhichLoop : Type 0 where
  main_loop : WhichLoop
  sub_loop : ℕ → WhichLoop

-- What is given to `RunInLoop` of a connection's loop.
pub data LoopTask : Type 0 where
  establishes destroys : ℕ → LoopTask

pub record TcpServer : Type 0 where
  pub m_thread_num : ℕ
  pub m_next_loop_idx : ℕ
  pub m_started : Bool
  pub is_listening : Bool
  pub m_connections : List (ℕ × ℕ)
  -- The tasks for the loops, in order.
  pub posted : List (WhichLoop × LoopTask)

abbrev pub new_server : ℕ → TcpServer
new_server thread_num = record {
  m_thread_num = thread_num;
  m_next_loop_idx = 0;
  m_started = false;
  is_listening = false;
  m_connections = [];
  posted = [];
}

unfoldable pub start : TcpServer → TcpServer
start s = if s.m_started then s else record s { m_started = true; is_listening = true }

-- `fetch_add` of a `size_t` wraps around.
unfoldable pub next_loop : TcpServer → WhichLoop × TcpServer
next_loop s = if s.m_thread_num == 0 then (main_loop, s) else (
  sub_loop (s.m_next_loop_idx % s.m_thread_num),
  record s { m_next_loop_idx = (s.m_next_loop_idx + 1) % 2 ^ 64 },
)

-- `conn` is the new connection, over the descriptor that was accepted.
unfoldable pub handle_new_connection : TcpServer → ℕ → ℕ → TcpServer
handle_new_connection s fd conn =
    let chosen = next_loop s in
    record chosen.1 {
      m_connections = NatMap.assign s.m_connections fd conn;
      posted = s.posted ++ ((chosen.0, establishes conn) ∷ []);
    }

-- `m_connections.erase(fd)`: the invalid descriptor, here `none`, is no key.
abbrev pub has_connection : TcpServer → Option ℕ → Bool
has_connection s none = false
has_connection s (some fd) = is_some (NatMap.find s.m_connections fd)

abbrev pub erase_connection : TcpServer → Option ℕ → List (ℕ × ℕ)
erase_connection s none = s.m_connections
erase_connection s (some fd) = NatMap.erase s.m_connections fd

-- The task that `HandleRemoveConnection` gives to the main loop: `fd` is what `conn->GetFd()` returns
-- when it runs.
unfoldable pub handle_remove_connection : TcpServer → Option ℕ → WhichLoop → ℕ → Outcome TcpServer
handle_remove_connection s fd io_loop conn = do
  assert (has_connection s fd)
  ok (record s {
    m_connections = erase_connection s fd;
    posted = s.posted ++ ((io_loop, destroys conn) ∷ []);
  })
