-- ===== src/Client/Connection.antt =====
-- Connect, Disconnect, OnSteamNetConnectionStatusChanged and GetPingMs of SessionClient in
-- src/session/sf4e__SessionClient.cxx. The handle 0 is k_HSteamNetConnection_Invalid, which
-- ConnectByIPAddress gives when it fails.
use sf4_rollback_gui.Prelude.{
  ℕ, zero, suc, true, false, Option, none, some, ℤ, minus_one, ◌==◌, if◌then◌else◌,
}
use sf4_rollback_gui.Protocol.{hello, null_lobby}
use sf4_rollback_gui.Client.State.{
  Client, IpAddress, connect_by_ip_address, set_connection_callback, close_connection,
  linger_connection, send_request, call, send, result_ok,
}

unfoldable pub handle_of : ℕ → Option ℕ
handle_of zero = none
handle_of (suc n) = some (suc n)

-- `SetIPv6LocalHost`
abbrev pub ipv6_local_host : IpAddress
ipv6_local_host = record { ipv4 = 0; port = 0; is_local_host = true }

-- Connect, for a connection inside the process.
unfoldable pub connect_existing : ℕ → Client → Client
connect_existing new_conn c = record (call (set_connection_callback new_conn) c) {
  snapshots_enabled = false;
  server_addr = ipv6_local_host;
  conn = handle_of new_conn;
  connected = true;
}

-- Connect to an address, where `handle` is the result of ConnectByIPAddress. `_connected` is left to
-- the callback.
unfoldable pub connect : IpAddress → ℕ → Client → Client
connect addr handle c = record (call (connect_by_ip_address addr) c) {
  server_addr = addr;
  snapshots_enabled = true;
  conn = handle_of handle;
}

unfoldable pub disconnect : Client → Client
disconnect c = elim c.conn [
  | none ↦ c
  | some h ↦ record (call (linger_connection h) c) {
    conn = none;
    connected = false;
    lobby_data = null_lobby;
  }
]

-- `m_info.m_eState`, as far as the handler tells the states apart.
pub data ConnectionState : Type 0 where
  closed_by_peer problem_detected_locally now_connected other_state : ConnectionState

unfoldable pub drop_handle : ℕ → Client → Client
drop_handle handle c = record (call (close_connection handle) c) { conn = none; connected = false }

-- `handle` is `m_hConn`.
unfoldable pub status_changed : ConnectionState → ℕ → Client → Client
status_changed closed_by_peer handle c = drop_handle handle c
status_changed problem_detected_locally handle c = drop_handle handle c
status_changed now_connected handle c = send (send_request hello) (record c { connected = true })
status_changed other_state handle c = c

-- `status` is what GetConnectionRealTimeStatus gives: its EResult and `m_nPing`.
unfoldable pub get_ping_ms : ℕ × ℤ → Client → ℤ
get_ping_ms (result, ping) c = elim c.conn [
  | none ↦ minus_one
  | some h ↦ if result == result_ok then ping else minus_one
]
