-- ===== src/Server/Tests.antt =====
-- Data for the tests of the server (src/session/sf4e__SessionServer.cxx): two players, their lobby and
-- a server that holds it.
pub mod Lobbies
pub mod Matches
pub mod Messages
pub mod Pairs
pub mod Presence
pub mod Registration
use sf4_rollback_gui.Server.Chat.{Json}
use sf4_rollback_gui.Prelude.{ℕ, true, false, List, [], ◌∷◌, none, some, pos, Str, lit}
use sf4_rollback_gui.Protocol.{MemberData, Packet, Body}
use sf4_rollback_gui.Registry.{Lobby, LobbyMember, LobbyRegistry, default_lobby}
use sf4_rollback_gui.Server.State.{Server, Peer, fresh_peer}

abbrev pub data_for : Str → Str → ℕ → MemberData
data_for name user port = record {
  conn_id = record { host = lit "10.0.0.1:2346"; user = user };
  name = name;
  ip = lit "10.0.0.2";
  port = port;
  flags = 1;
}

abbrev pub ann : LobbyMember
ann = record { data_of = data_for (lit "ann") (lit "7") 9000; conn = 7 }

abbrev pub bob : LobbyMember
bob = record { data_of = data_for (lit "bob") (lit "8") 9001; conn = 8 }

-- The lobby of the two, due for the all-ready round.
abbrev pub duel : Lobby
duel = record (default_lobby) {
  id = record { host = lit "10.0.0.1:2346"; key = lit "1" };
  display_name = lit "ann vs bob";
  members = ann ∷ bob ∷ [];
  send_all_ready = true;
}

-- Every message can be printed, and is printed as it came.
abbrev pub plain_json : Json
plain_json = record { can_dump = λ m. true; reprint = λ text. text }

abbrev pub peer_for : LobbyMember → Peer
peer_for m = record (fresh_peer m.data_of) { lobby_key = lit "1" }

abbrev pub server : Server
server = record {
  identity = lit "10.0.0.1:2346";
  version = lit "1.0";
  sidecar_hash = [];
  default_lobby_key = [];
  probe_bound = record { p1 = true; p2 = true };
  relay_bound = true;
  relay_port = 23459;
  relay_pairs = [];
  match_forensics = [];
  max_peers = 0;
  match_edition_select = true;
  match_round_count = pos 3;
  match_round_time = record { fractional = 0; integral = pos 99 };
  challenge_ttl_ms = 30000;
  relay_fallback_pairs = [];
  handshake_fail_window_ms = 75000;
  relay_fallback_ttl_ms = 86400000;
  cid_map = [];
  peers = (7, peer_for ann) ∷ (8, peer_for bob) ∷ [];
  registry = record {
    host_identity = lit "10.0.0.1:2346";
    next_key = 2;
    lobbies = (lit "1", duel) ∷ [];
  };
  tokens_drawn = 0;
  seeds_drawn = 0;
  net = [];
}

abbrev pub packet : ℕ → Body → Packet
packet conn body = record {
  conn = conn;
  addr = record { is_local_host = false; text = lit "10.0.0.9" };
  message_number = 5;
  raw = lit "{}";
  body = body;
  now_ms = 1000;
  wall = 1700000000;
}
