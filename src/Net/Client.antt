-- ===== src/Net/Client.antt =====
-- `TcpClient` of Net/TcpClient.h and Net/TcpClient.cpp. What it holds of its connection is whether it
-- is connected; what it asks of the connection, the loop and the callbacks is a list, in order. The
-- bool that `Socket::Connect` returns is an argument.
pub mod Reconnect
use turbo_core_dist_ai_clush.Prelude.{
  ℕ, Bool, true, false, not, ◌&&◌, List, [], ◌∷◌, ◌++◌, Option, none, some, if◌then◌else◌, ◌==◌,
}
use turbo_core_dist_ai_clush.Prelude.Int.{ℤ, pos, negsuc}

pub data Ask : Type 0 where
  establishes shuts_down forces_close calls_close_callback : Ask
  -- The connection in progress is watched; the channel ends with the branch.
  watches : Ask
  -- `RunAfter` of `DoReconnect`, with `m_reconnect_delay_ms`
  reconnects_after : ℕ → Ask
  sends : List ℕ → Ask

pub record TcpClient : Type 0 where
  -- `m_connection`, as the value of its `IsConnected`
  pub m_connection : Option Bool
  pub has_socket : Bool
  pub m_connecting : Bool
  pub m_started : Bool
  pub m_auto_reconnect : Bool
  pub m_reconnect_delay_ms : ℕ
  pub asked : List Ask

abbrev pub new_client : TcpClient
new_client = record {
  m_connection = none;
  has_socket = false;
  m_connecting = false;
  m_started = false;
  m_auto_reconnect = false;
  m_reconnect_delay_ms = 3000;
  asked = [];
}

abbrev pub ask : Ask → TcpClient → TcpClient
ask a c = record c { asked = c.asked ++ (a ∷ []) }

abbrev pub k_connect_in_progress : ℤ
k_connect_in_progress = negsuc 0

-- `int ret = m_socket->Connect(...)`
abbrev pub int_of_bool : Bool → ℤ
int_of_bool false = pos 0
int_of_bool true = pos 1

abbrev pub is_zero : ℤ → Bool
is_zero (pos n) = n == 0
is_zero (negsuc n) = false

abbrev pub is_in_progress : ℤ → Bool
is_in_progress (pos n) = false
is_in_progress (negsuc n) = n == 0

abbrev pub is_connected : TcpClient → Bool
is_connected c = elim c.m_connection [ none ↦ false | some connected ↦ connected ]

-- The new connection is established in the call, and is connected after it.
unfoldable pub handle_connect : TcpClient → TcpClient
handle_connect c = ask establishes (record c { m_connecting = false; m_connection = some true })

-- The branches on `ret`.
unfoldable pub after_connect : ℤ → TcpClient → TcpClient
after_connect ret c =
    if is_zero ret
    then record (handle_connect c) { has_socket = false }
    else if is_in_progress ret
    then ask watches c
    else record c { m_connecting = false; m_started = false; has_socket = false }

unfoldable pub connect : Bool → TcpClient → TcpClient
connect connects c =
    if c.m_started
    then c
    else after_connect (int_of_bool connects)
        (record c { m_started = true; m_connecting = true; has_socket = true })

-- The write callback of a connection in progress, from the socket's error.
unfoldable pub on_writable : ℕ → TcpClient → TcpClient
on_writable err c =
    if not (err == 0)
    then (let failed = record c { m_connecting = false } in
        if c.m_auto_reconnect && c.m_started
        then ask (reconnects_after c.m_reconnect_delay_ms) failed
        else failed)
    else record (handle_connect c) { has_socket = false }

unfoldable pub handle_remove_connection : TcpClient → TcpClient
handle_remove_connection c =
    let told = ask calls_close_callback (record c { m_connection = none }) in
    if told.m_auto_reconnect && told.m_started
    then ask (reconnects_after told.m_reconnect_delay_ms) (record told { m_connecting = false })
    else record told { m_started = false }

unfoldable pub do_reconnect : Bool → TcpClient → TcpClient
do_reconnect connects c =
    if c.m_started && (not c.m_connecting && not (is_connected c)) then connect connects c else c

abbrev pub has_connection : TcpClient → Bool
has_connection c = elim c.m_connection [ none ↦ false | some connected ↦ true ]

-- `Shutdown` of the connection leaves it disconnecting or disconnected.
unfoldable pub disconnect : TcpClient → TcpClient
disconnect c =
    let stopped = record c { m_auto_reconnect = false; m_started = false } in
    if has_connection c
    then ask shuts_down (record stopped { m_connection = some false })
    else stopped

unfoldable pub send : List ℕ → TcpClient → TcpClient
send bytes c = if is_connected c then ask (sends bytes) c else c

unfoldable pub destroy : TcpClient → TcpClient
destroy c = if has_connection c then ask forces_close c else c

unfoldable pub set_auto_reconnect : Bool → TcpClient → TcpClient
set_auto_reconnect enable c = record c { m_auto_reconnect = enable }
