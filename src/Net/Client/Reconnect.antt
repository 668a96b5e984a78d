-- ===== src/Net/Client/Reconnect.antt =====
-- The result of a connection attempt, and the automatic reconnection.
use turbo_core_dist_ai_clush.Prelude.{◌≡◌, Bool, false, not, arith}
use turbo_core_dist_ai_clush.Net.Client.{
  TcpClient, connect, after_connect, handle_connect, do_reconnect, is_connected,
}

do_reconnect_lem : (b : Bool) (c : TcpClient) → do_reconnect b c ≡ c
unfolding do_reconnect connect
do_reconnect_lem b c = ground arith

-- A client that is not started and not connected is connected after `Connect` exactly where
-- `Socket::Connect` reported a failure. And `DoReconnect`, which the automatic reconnection runs after
-- its delay, never does anything, whatever the state of the client: where it would connect, the client
-- is started, and `Connect` ignores a client that is started.
pub is_connected-connect :
    (result later : Bool) (c d : TcpClient)
    → c.m_started ≡ false
    → is_connected c ≡ false
    → (is_connected (connect result c) ≡ not result) × (do_reconnect later d ≡ d)
unfolding connect after_connect handle_connect
is_connected-connect result later c d fresh alone =
    (ground (arith, fresh, alone), do_reconnect_lem later d)
