-- ===== src/Server/State.antt =====
-- The state of src/session/sf4e__SessionServer.hxx, the calls that send messages, and the lookups
-- that every handler makes.
pub mod Sends
use sf4_rollback_gui.Prelude.{
  ◌||◌, true, false, Bool, ℕ, suc, ◌+◌, ◌≡◌, Bool, true, false, List, [], ◌∷◌, ◌++◌, Option, none,
  some, ℤ, pos, minus_one, Str, lit, is_empty, ◌==◌, if◌then◌else◌,
}
use sf4_rollback_gui.Prelude.Map
use sf4_rollback_gui.Prelude.Map.{Map, nat_key, str_key}
use sf4_rollback_gui.Protocol.{
  FixedPoint, ConnectionId, LobbyId, MemberData, LobbyData, null_lobby, MatchData, cleared_match,
  Sides, JoinResult, ChallengeResult, Message, join_rej, data_update, challenge_result,
}
use sf4_rollback_gui.Registry.{
  Lobby, LobbyMember, LobbyRegistry, LobbySettings, empty_registry, create, find_by_key, remove,
}

pub record Peer : Type 0 where
  pub data_of : MemberData
  pub lobby_key : Str
  pub nat_flags : ℕ
  pub chat_stamps : List ℕ
  pub chat_stamp_idx : ℕ
  pub looking_for_match : Bool
  pub looking_since_ms : ℕ
  pub challenge_target : Str
  pub challenge_sent_at_ms : ℕ

abbrev pub empty_member_data : MemberData
empty_member_data = record {
  conn_id = record { host = []; user = [] };
  name = [];
  ip = [];
  port = 0;
  flags = 0;
}

-- `Peer newPeer;` followed by the assignment of its data.
abbrev pub fresh_peer : MemberData → Peer
fresh_peer d = record {
  data_of = d;
  lobby_key = [];
  nat_flags = 0;
  chat_stamps = 0 ∷ 0 ∷ 0 ∷ 0 ∷ 0 ∷ [];
  chat_stamp_idx = 0;
  looking_for_match = false;
  looking_since_ms = 0;
  challenge_target = [];
  challenge_sent_at_ms = 0;
}

-- An IPv4 address and a port, as numbers in host order.
pub record Endpoint : Type 0 where
  pub addr : ℕ
  pub port : ℕ

-- `present[i]` with `addr[i]` and `port[i]` is an optional endpoint.
pub record RelayPair : Type 0 where
  pub seats : Sides (Option Endpoint)
  pub last_seen_ms : ℕ

pub record MatchForensic : Type 0 where
  pub game_conns : Sides ℕ
  pub names : Sides Str
  pub second_handoff_at_ms : ℕ
  pub game_conns_dead : ℕ
  pub saw_battle_ended : Bool

-- The calls of ISteamNetworkingSockets and the datagrams sent, in order. A datagram says from which
-- of the server's sockets it goes.
pub data Socket : Type 0 where
  probe_socket : ℕ → Socket
  relay_socket : Socket

pub data NetCall : Type 0 where
  send_message : ℕ → Message → NetCall
  send_datagram : Socket → Endpoint → Str → NetCall
  accept_connection : ℕ → NetCall
  join_poll_group : ℕ → NetCall
  leave_poll_group : ℕ → NetCall
  close_connection : ℕ → NetCall
  uncaught_exception undefined_behaviour : NetCall

-- The last two are no calls: an exception that nobody catches has ended the process, or the source's
-- behaviour is undefined. Nothing is modelled behind them.
unfoldable pub is_end : NetCall → Bool
is_end uncaught_exception = true
is_end undefined_behaviour = true
is_end _ = false

unfoldable pub any_end : List NetCall → Bool
any_end [] = false
any_end (c ∷ cs) = is_end c || any_end cs

-- `version` is SF4E_VERSION of the build. `tokens_drawn` and `seeds_drawn` count the draws of the two
-- random generators.
pub record Server : Type 0 where
  pub identity : Str
  pub version : Str
  pub sidecar_hash : Str
  pub default_lobby_key : Str
  pub probe_bound : Sides Bool
  pub relay_bound : Bool
  pub relay_port : ℕ
  pub relay_pairs : Map Str RelayPair
  pub match_forensics : Map Str MatchForensic
  pub max_peers : ℕ
  pub match_edition_select : Bool
  pub match_round_count : ℤ
  pub match_round_time : FixedPoint
  pub challenge_ttl_ms : ℕ
  pub relay_fallback_pairs : Map Str ℕ
  pub handshake_fail_window_ms : ℕ
  pub relay_fallback_ttl_ms : ℕ
  pub cid_map : Map ℕ ConnectionId
  pub peers : Map ℕ Peer
  pub registry : LobbyRegistry
  pub tokens_drawn : ℕ
  pub seeds_drawn : ℕ
  pub net : List NetCall

-- The dedicated server's constructor, and the member initialisers of the class.
unfoldable pub init : Str → Str → Str → Server
init identity sidecar_hash version = record {
  identity = identity;
  version = version;
  sidecar_hash = sidecar_hash;
  default_lobby_key = [];
  probe_bound = record { p1 = false; p2 = false };
  relay_bound = false;
  relay_port = 0;
  relay_pairs = [];
  match_forensics = [];
  max_peers = 0;
  match_edition_select = true;
  match_round_count = pos 3;
  match_round_time = record { fractional = 0; integral = pos 99 };
  challenge_ttl_ms = 30000;
  relay_fallback_pairs = [];
  handshake_fail_window_ms = 75000;
  relay_fallback_ttl_ms = 86400000;
  cid_map = [];
  peers = [];
  registry = empty_registry identity;
  tokens_drawn = 0;
  seeds_drawn = 0;
  net = [];
}

abbrev pub max_sf4e_protocol_users : ℕ
max_sf4e_protocol_users = 4

-- The constructor with a default lobby.
unfoldable pub init_with_default : Str → Str → Str → Bool → ℤ → FixedPoint → Server
init_with_default identity sidecar_hash version edition_select round_count round_time =
    let base = init identity sidecar_hash version in
    let (key, registry) =
      create
        (record {
          display_name = lit "main";
          edition_select = edition_select;
          round_count = round_count;
          round_time = round_time;
          capacity = max_sf4e_protocol_users;
          persistent = true;
          unlisted = false;
        })
        base.registry in
    record base {
      match_edition_select = edition_select;
      match_round_count = round_count;
      match_round_time = round_time;
      registry = registry;
      default_lobby_key = key;
    }

unfoldable pub net_call : NetCall → Server → Server
net_call c s = record s { net = s.net ++ c ∷ [] }

unfoldable pub has_ended : Server → Bool
has_ended s = any_end s.net

-- Respond
unfoldable pub respond : ℕ → Message → Server → Server
unfolding net_call
respond conn m s = net_call (send_message conn m) s

unfoldable pub respond_null_lobby_update : ℕ → Server → Server
unfolding respond
respond_null_lobby_update conn s = respond conn (data_update null_lobby cleared_match) s

unfoldable pub respond_join_reject : ℕ → JoinResult → Server → Server
unfolding respond
respond_join_reject conn result s = respond conn (join_rej result) s

unfoldable pub respond_challenge_result : ℕ → Str → ChallengeResult → Server → Server
unfolding respond
respond_challenge_result conn target result s = respond conn (challenge_result target result) s

-- The loop of BroadcastToLobby, over the lobby's members.
unfoldable pub broadcast_to_members : List LobbyMember → Message → Server → Server
broadcast_to_members [] m s = s
broadcast_to_members (x ∷ xs) m s = broadcast_to_members xs m (respond x.conn m s)

-- The loop of BroadcastToPeers, over the entries of `peers`.
unfoldable pub broadcast_to_entries : Map ℕ Peer → Message → Server → Server
broadcast_to_entries [] m s = s
broadcast_to_entries ((conn, peer) ∷ rest) m s = broadcast_to_entries rest m (respond conn m s)

unfoldable pub broadcast_to_peers : Message → Server → Server
broadcast_to_peers m s = broadcast_to_entries s.peers m s

unfoldable pub find_peer : ℕ → Server → Option Peer
find_peer conn s = Map.find conn s.peers

-- `peers[conn]` makes the peer if it is not there.
unfoldable pub peer_at : ℕ → Server → Peer
peer_at conn s = elim (find_peer conn s) [ none ↦ fresh_peer empty_member_data | some p ↦ p ]

unfoldable pub put_peer : ℕ → Peer → Server → Server
put_peer conn p s = record s { peers = Map.insert conn p s.peers }

unfoldable pub find_lobby : Str → Server → Option Lobby
find_lobby key s = find_by_key key s.registry

unfoldable pub put_lobby : Str → Lobby → Server → Server
put_lobby key l s = record s {
  registry = record (s.registry) { lobbies = Map.insert key l s.registry.lobbies };
}

-- GetDefaultLobby, to the lobby's key.
unfoldable pub default_key : Server → Option Str
default_key s =
    if is_empty s.default_lobby_key
    then none
    else elim (find_lobby s.default_lobby_key s) [ none ↦ none | some l ↦ some s.default_lobby_key ]
