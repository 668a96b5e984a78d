-- ===== src/Tests/Net.antt =====
-- Net/TcpServer.cpp and Net/TcpClient.cpp at concrete inputs.
use turbo_core_dist_ai_clush.Prelude.{
  All, ◌≡◌, refl, false, true, not, none, [], ◌∷◌, arith, if◌then◌else◌, ◌==◌,
}
use turbo_core_dist_ai_clush.Prelude.NatMap
use turbo_core_dist_ai_clush.Prelude.Size.{ok, assert_failed}
use turbo_core_dist_ai_clush.Net.Client
use turbo_core_dist_ai_clush.Net.Client.{new_client}
use turbo_core_dist_ai_clush.Net.Client.Reconnect.{is_connected-connect}
use turbo_core_dist_ai_clush.Net.Connection.{handle_close, force_close_in_loop}
use turbo_core_dist_ai_clush.Net.Server.{
  TcpServer, new_server, main_loop, sub_loop, handle_new_connection, handle_remove_connection,
  next_loop,
}
use turbo_core_dist_ai_clush.Net.Server.Loops.{IsInRange, choose, in_turn, choose-in_turn}
use turbo_core_dist_ai_clush.Net.Server.Table.{handle_remove_connection-handle_new_connection}
use turbo_core_dist_ai_clush.Tests.Connection.{connected_state}

choose_run :
    (choose 5 (new_server 4)).0
    ≡ sub_loop 0 ∷ sub_loop 1 ∷ sub_loop 2 ∷ sub_loop 3 ∷ sub_loop 0 ∷ []
unfolding choose next_loop
choose_run = refl

choose-in_turn_example :
    ((choose 5 (new_server 4)).0 ≡ in_turn 4 5 0) × All (IsInRange 4) (choose 5 (new_server 4)).0
choose-in_turn_example = choose-in_turn 5 (new_server 4) (omega arith) (omega arith)

handle_remove_connection-handle_new_connection_example :
    let accepted = handle_new_connection (new_server 0) 5 77 in
    ((s' : TcpServer) × (handle_remove_connection accepted connected_state.m_sockfd main_loop 77
        ≡ ok s')
      × (NatMap.find s'.m_connections 6
          ≡ (if 5 == 6 then none else NatMap.find (new_server 0).m_connections 6)))
    × (handle_remove_connection accepted (handle_close connected_state).m_sockfd main_loop 77
        ≡ assert_failed)
    × (handle_remove_connection accepted (force_close_in_loop connected_state).m_sockfd main_loop 77
        ≡ assert_failed)
handle_remove_connection-handle_new_connection_example =
    handle_remove_connection-handle_new_connection (new_server 0) 5 77 main_loop connected_state 6
      refl refl

is_connected-connect_example :
    (Client.is_connected (Client.connect true new_client) ≡ not true)
    × (Client.do_reconnect false (Client.set_auto_reconnect true new_client)
        ≡ Client.set_auto_reconnect true new_client)
is_connected-connect_example =
    is_connected-connect true false new_client (Client.set_auto_reconnect true new_client) refl refl
