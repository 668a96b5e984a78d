-- ===== src/Net/Server/Table.antt =====
-- The table of a server's connections, and the descriptor that a closed connection still has.
use turbo_core_dist_ai_clush.Prelude.{
  [], ◌∷◌, ◌++◌, ℕ, ◌≡◌, refl, ap, ◌∙◌, Option, none, some, arith, ◌==◌, if◌then◌else◌,
}
use turbo_core_dist_ai_clush.Prelude.NatMap
use turbo_core_dist_ai_clush.Prelude.Size.{ok, assert_failed}
use turbo_core_dist_ai_clush.Net.Connection.{
  TcpConnection, connected, handle_close, force_close_in_loop,
}
use turbo_core_dist_ai_clush.Net.Server.{
  TcpServer, WhichLoop, destroys, handle_new_connection, handle_remove_connection,
}

closed-handle_close : (c : TcpConnection) → c.m_state ≡ connected → (handle_close c).m_sockfd ≡ none
unfolding handle_close
closed-handle_close c alive = ground (arith, alive)

closed-force_close_in_loop :
    (c : TcpConnection) → c.m_state ≡ connected → (force_close_in_loop c).m_sockfd ≡ none
unfolding force_close_in_loop
closed-force_close_in_loop c alive = ground (arith, alive)

-- The invalid descriptor is in no table.
handle_remove_connection-none :
    (s : TcpServer) (io_loop : WhichLoop) (conn : ℕ) (fd : Option ℕ)
    → fd ≡ none
    → handle_remove_connection s fd io_loop conn ≡ assert_failed
unfolding handle_remove_connection
handle_remove_connection-none s io_loop conn fd invalid = rw invalid refl

-- A descriptor of the table.
handle_remove_connection-some :
    (s : TcpServer) (io_loop : WhichLoop) (conn fd other : ℕ)
    → NatMap.find s.m_connections fd ≡ some conn
    → (s' : TcpServer) × (handle_remove_connection s (some fd) io_loop conn ≡ ok s')
      × (NatMap.find s'.m_connections other
          ≡ (if fd == other then none else NatMap.find s.m_connections other))
unfolding handle_remove_connection
handle_remove_connection-some s io_loop conn fd other there = (
  record s {
    m_connections = NatMap.erase s.m_connections fd;
    posted = s.posted ++ ((io_loop, destroys conn) ∷ []);
  },
  rw (there, handle_remove_connection) refl,
  NatMap.find-erase s.m_connections fd other,
)

m_connections-handle_new_connection :
    (s : TcpServer) (fd conn : ℕ)
    → (handle_new_connection s fd conn).m_connections ≡ NatMap.assign s.m_connections fd conn
unfolding handle_new_connection
m_connections-handle_new_connection s fd conn = refl

-- A connection that a server accepted over a descriptor is connected, and is the last that the server
-- accepted. Where the connection's descriptor is read before the socket is closed, the task that
-- removes the connection ends well and the table is without it and otherwise as before it came. Read
-- after `HandleClose`, or after `ForceCloseInLoop`, which closes the socket before it calls the close
-- callback, the descriptor is invalid and the assertion of the task fails.
pub handle_remove_connection-handle_new_connection :
    (s : TcpServer) (fd conn : ℕ) (io_loop : WhichLoop) (c : TcpConnection) (other : ℕ)
    → c.m_state ≡ connected
    → c.m_sockfd ≡ some fd
    → let accepted = handle_new_connection s fd conn in
      ((s' : TcpServer) × (handle_remove_connection accepted c.m_sockfd io_loop conn ≡ ok s')
        × (NatMap.find s'.m_connections other
            ≡ (if fd == other then none else NatMap.find s.m_connections other)))
      × (handle_remove_connection accepted (handle_close c).m_sockfd io_loop conn ≡ assert_failed)
      × (handle_remove_connection accepted (force_close_in_loop c).m_sockfd io_loop conn
          ≡ assert_failed)
handle_remove_connection-handle_new_connection s fd conn io_loop c other alive open_fd =
    let accepted = handle_new_connection s fd conn in
    let there : NatMap.find accepted.m_connections fd ≡ some conn =
      ap (λ m. NatMap.find m fd) (m_connections-handle_new_connection s fd conn)
      ∙ ground (arith, NatMap.find-assign s.m_connections fd conn fd) in
    let (s', same, after) = handle_remove_connection-some accepted io_loop conn fd other there in
    (
      (
        s',
        ap (λ d. handle_remove_connection accepted d io_loop conn) open_fd ∙ same,
        after
            ∙ ap (λ m. if fd == other then none else NatMap.find m other)
                (m_connections-handle_new_connection s fd conn)
            ∙ ground (arith, NatMap.find-assign s.m_connections fd conn other),
      ),
      handle_remove_connection-none accepted io_loop conn (handle_close c).m_sockfd
          (closed-handle_close c alive),
      handle_remove_connection-none accepted io_loop conn (force_close_in_loop c).m_sockfd
          (closed-force_close_in_loop c alive),
    )
