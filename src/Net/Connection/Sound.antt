-- ===== src/Net/Connection/Sound.antt =====
-- The handlers of a connection on its state, its socket and the callbacks that it counts.
use turbo_core_dist_ai_clush.Prelude.{
  ℕ, ◌+◌, ◌≤◌, ◌≡◌, true, false, List, [], ◌∷◌, ◌++◌, arith, suc,
}
use turbo_core_dist_ai_clush.Net.Connection.{
  ConnectionState, connecting, connected, disconnecting, disconnected, TcpConnection, Call,
  connection_callback, message_callback, write_complete_callback, close_callback, is_disconnected,
  handle_close, after_all, connect_destroyed, shutdown, force_close, shutdown_in_loop,
  force_close_in_loop, after_read, after_write,
}
use turbo_core_dist_ai_clush.Buffer.{ReadResult, read_failed, got}
use turbo_core_dist_ai_clush.Net.Poller.{is_some}

abbrev pub rank : ConnectionState → ℕ
rank connecting = 0
rank connected = 1
rank disconnecting = 2
rank disconnected = 3

unfoldable pub closes : List Call → ℕ
closes [] = 0
closes (connection_callback ∷ calls) = closes calls
closes (message_callback ∷ calls) = closes calls
closes (write_complete_callback ∷ calls) = closes calls
closes (close_callback ∷ calls) = suc (closes calls)

unfoldable pub connections : List Call → ℕ
connections [] = 0
connections (connection_callback ∷ calls) = suc (connections calls)
connections (message_callback ∷ calls) = connections calls
connections (write_complete_callback ∷ calls) = connections calls
connections (close_callback ∷ calls) = connections calls

closes_snoc : (cs : List Call) (c : Call) → closes (cs ++ (c ∷ [])) ≡ closes cs + closes (c ∷ [])
unfolding closes
closes_snoc [] c = omega arith
closes_snoc (connection_callback ∷ cs) c = closes_snoc cs c
closes_snoc (message_callback ∷ cs) c = closes_snoc cs c
closes_snoc (write_complete_callback ∷ cs) c = closes_snoc cs c
closes_snoc (close_callback ∷ cs) c = omega (arith, closes_snoc cs c)

connections_snoc :
    (cs : List Call) (c : Call)
    → connections (cs ++ (c ∷ [])) ≡ connections cs + connections (c ∷ [])
unfolding connections
connections_snoc [] c = omega arith
connections_snoc (connection_callback ∷ cs) c = omega (arith, connections_snoc cs c)
connections_snoc (message_callback ∷ cs) c = connections_snoc cs c
connections_snoc (write_complete_callback ∷ cs) c = connections_snoc cs c
connections_snoc (close_callback ∷ cs) c = connections_snoc cs c

-- The stages that are never left backwards.
abbrev pub stage : ConnectionState → ℕ
stage connecting = 0
stage connected = 1
stage disconnecting = 2
stage disconnected = 2

-- After `n` late settings: the connection callback was called at most once, and not before the
-- connection was connected; the close callback at most once more than there were late settings, and
-- only behind a close.
abbrev pub IsTold : ℕ → ConnectionState → List Call → Type 0
IsTold n connecting calls = (connections calls ≡ 0) × (closes calls ≡ 0)
IsTold n connected calls = (connections calls ≤ 1) × (closes calls ≡ 0)
IsTold n disconnecting calls = (connections calls ≤ 1) × (closes calls ≤ n)
IsTold n disconnected calls = (connections calls ≤ 1) × (closes calls ≤ n + 1)

pub record IsSound (n : ℕ) (c : TcpConnection) : Type 0 where
  pub told : IsTold n c.m_state c.calls
  -- The socket is closed where the connection is disconnected, and else only after a late setting.
  pub is_closed : is_disconnected c.m_state ≡ true → is_some c.m_sockfd ≡ false
  pub is_open : is_some c.m_sockfd ≡ false → is_disconnected c.m_state ≡ false → 1 ≤ n

-- What a handler in the loop's thread does to it.
pub record Advances (n : ℕ) (c c' : TcpConnection) : Type 0 where
  pub sound : IsSound n c'
  pub forward : rank c.m_state ≤ rank c'.m_state
  pub onward : stage c.m_state ≤ stage c'.m_state
  pub same_queue : c'.m_pending_functors ≡ c.m_pending_functors

-- The callbacks that are not counted, and the two that are.
module _ (c : TcpConnection) where
  abbrev Counts : Type 0
  Counts =
      (connections (c.calls ++ (connection_callback ∷ [])) ≡ connections c.calls + 1)
      × (closes (c.calls ++ (connection_callback ∷ [])) ≡ closes c.calls)
      × (connections (c.calls ++ (message_callback ∷ [])) ≡ connections c.calls)
      × (closes (c.calls ++ (message_callback ∷ [])) ≡ closes c.calls)
      × (connections (c.calls ++ (write_complete_callback ∷ [])) ≡ connections c.calls)
      × (closes (c.calls ++ (write_complete_callback ∷ [])) ≡ closes c.calls)
      × (connections (c.calls ++ (close_callback ∷ [])) ≡ connections c.calls)
      × (closes (c.calls ++ (close_callback ∷ [])) ≡ closes c.calls + 1)

  pub counts_lem : Counts
  unfolding closes connections
  counts_lem = (
    omega (arith, connections_snoc c.calls connection_callback),
    omega (arith, closes_snoc c.calls connection_callback),
    omega (arith, connections_snoc c.calls message_callback),
    omega (arith, closes_snoc c.calls message_callback),
    omega (arith, connections_snoc c.calls write_complete_callback),
    omega (arith, closes_snoc c.calls write_complete_callback),
    omega (arith, connections_snoc c.calls close_callback),
    omega (arith, closes_snoc c.calls close_callback),
  )

pub handle_close-Advances :
    (n : ℕ) (c : TcpConnection) → IsSound n c → Advances n c (handle_close c)
unfolding handle_close
handle_close-Advances n c v = ground (arith, v.told, v.is_closed, v.is_open, counts_lem c)

pub connect_destroyed-Advances :
    (n : ℕ) (c : TcpConnection) → IsSound n c → Advances n c (connect_destroyed c)
unfolding connect_destroyed
connect_destroyed-Advances n c v = ground (arith, v.told, v.is_closed, v.is_open)

pub shutdown_in_loop-Advances :
    (n : ℕ) (c : TcpConnection) → IsSound n c → Advances n c (shutdown_in_loop c)
unfolding shutdown_in_loop
shutdown_in_loop-Advances n c v = ground (arith, v.told, v.is_closed, v.is_open)

pub force_close_in_loop-Advances :
    (n : ℕ) (c : TcpConnection) → IsSound n c → Advances n c (force_close_in_loop c)
unfolding force_close_in_loop
force_close_in_loop-Advances n c v = ground (arith, v.told, v.is_closed, v.is_open, counts_lem c)

pub shutdown-Advances : (n : ℕ) (c : TcpConnection) → IsSound n c → Advances n c (shutdown c true)
unfolding shutdown shutdown_in_loop
shutdown-Advances n c v = ground (arith, v.told, v.is_closed, v.is_open)

pub force_close-Advances :
    (n : ℕ) (c : TcpConnection) → IsSound n c → Advances n c (force_close c true)
unfolding force_close force_close_in_loop
force_close-Advances n c v = ground (arith, v.told, v.is_closed, v.is_open, counts_lem c)

pub after_read-Advances :
    (n : ℕ) (c : TcpConnection) (r : ReadResult) → IsSound n c → Advances n c (after_read c r)
unfolding after_read
after_read-Advances n c (read_failed err) v =
    ground (arith, v.told, v.is_closed, v.is_open, handle_close-Advances n c v)
after_read-Advances n c (got []) v = handle_close-Advances n c v
after_read-Advances n c (got (b ∷ bs)) v =
    ground (arith, v.told, v.is_closed, v.is_open, counts_lem c)

after_all-Advances : (n : ℕ) (c : TcpConnection) → IsSound n c → Advances n c (after_all c)
after_all-Advances n c v = ground (arith, v.told, v.is_closed, v.is_open, counts_lem c)

pub after_write-Advances :
    (n : ℕ) (c : TcpConnection) (k err : ℕ) → IsSound n c → Advances n c (after_write c k err)
unfolding after_write
after_write-Advances n c k err v =
    let all = after_all-Advances n c v in
    let closed = handle_close-Advances n (after_all c) all.sound in
    ground (
      arith,
      v.told,
      v.is_closed,
      v.is_open,
      all.sound,
      all.forward,
      all.onward,
      all.same_queue,
      closed.sound,
      closed.forward,
      closed.onward,
      closed.same_queue,
      handle_close-Advances n c v,
    )
