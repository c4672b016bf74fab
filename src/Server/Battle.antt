-- ===== src/Server/Battle.antt =====
-- The match setup and the ready / loaded / ended cycle in SessionServer::Step of
-- src/session/sf4e__SessionServer.cxx, and ResetBattleSync.
pub mod Due
pub mod Cycle
use sf4_rollback_gui.Prelude.{
  ℕ, ◌+◌, ◌%◌, ◌^◌, Bool, true, false, ◌&&◌, ◌||◌, List, [], ◌∷◌, map, Option, none, some, ℤ, pos,
  minus_one, Str, ltb, ◌==◌, if◌then◌else◌,
}
use sf4_rollback_gui.Prelude.Map
use sf4_rollback_gui.Prelude.Map.{Map, str_key}
use sf4_rollback_gui.Protocol.{
  ConfirmedCharaConditions, MatchData, set_side, is_all_ready, battle_loaded_flag,
  set_battle_loaded, clear_battle_loaded, Packet,
}
use sf4_rollback_gui.Registry.{Lobby, LobbyMember, member_index, find_member, clear_handoffs}
use sf4_rollback_gui.Server.State.{
  Server, Peer, MatchForensic, find_lobby, put_lobby, net_call, undefined_behaviour,
}
use sf4_rollback_gui.Server.Seats.{handle_results}

-- The sender's lobby, with the sender's index among its members if that is 0 or 1.
unfoldable pub playing_side : ℕ → Lobby → Option ℕ
playing_side conn l = elim (member_index conn l.members) [
  | none ↦ none
  | some i ↦ if ltb i 2 then some i else none
]

unfoldable pub set_match : Str → MatchData → Lobby → Server → Server
set_match key m l s = put_lobby key (record l { match_data = m; dirty = true }) s

unfoldable pub handle_setchara : Packet → Option ConfirmedCharaConditions → Peer → Server → Server
handle_setchara p none peer s = s
handle_setchara p (some chara) peer s = elim (find_lobby peer.lobby_key s) [
  | none ↦ s
  | some l ↦ elim (playing_side p.conn l) [
    | none ↦ s
    | some i ↦
        set_match peer.lobby_key
          (record (l.match_data) { chara = set_side i chara l.match_data.chara }) l s
  ]
]

-- Whether the connection is the lobby's first player.
unfoldable pub is_p1 : ℕ → Lobby → Bool
is_p1 conn l = elim (member_index conn l.members) [ none ↦ false | some i ↦ i == 0 ]

unfoldable pub handle_setenv : Packet → Option ℕ → Peer → Server → Server
handle_setenv p none peer s = s
handle_setenv p (some seed) peer s = elim (find_lobby peer.lobby_key s) [
  | none ↦ s
  | some l ↦
      if is_p1 p.conn l
      then set_match peer.lobby_key (record (l.match_data) { rng_seed = seed }) l s
      else s
]

unfoldable pub handle_setstage : Packet → Option ℤ → Peer → Server → Server
handle_setstage p none peer s = s
handle_setstage p (some stage) peer s = elim (find_lobby peer.lobby_key s) [
  | none ↦ s
  | some l ↦
      if is_p1 p.conn l
      then set_match peer.lobby_key (record (l.match_data) { stage_id = stage }) l s
      else s
]

abbrev pub with_flags : (ℕ → ℕ) → LobbyMember → LobbyMember
with_flags f m = record m { data_of = record (m.data_of) { flags = f m.data_of.flags } }

-- The first member with the connection is marked.
unfoldable pub mark_loaded : ℕ → List LobbyMember → List LobbyMember
mark_loaded conn [] = []
mark_loaded conn (m ∷ ms) =
    if m.conn == conn then with_flags set_battle_loaded m ∷ ms else m ∷ mark_loaded conn ms

unfoldable pub all_loaded : List LobbyMember → Bool
all_loaded [] = true
all_loaded (m ∷ ms) = battle_loaded_flag m.data_of.flags && all_loaded ms

unfoldable pub handle_battle_loaded : Packet → Peer → Server → Server
handle_battle_loaded p peer s = elim (find_lobby peer.lobby_key s) [
  | none ↦ s
  | some l ↦ elim (find_member p.conn l.members) [
    | none ↦ s
    | some m ↦
        let marked = mark_loaded p.conn l.members in
        put_lobby peer.lobby_key
          (record l { members = marked; send_battle_synced = all_loaded marked; dirty = true }) s
  ]
]

unfoldable pub ready_lobby : ℕ → ℕ → Lobby → Lobby
ready_lobby i number l =
    let m : MatchData = record (l.match_data) {
      ready_message_num = set_side i (pos number) l.match_data.ready_message_num;
    } in
    record l { match_data = m; send_all_ready = l.send_all_ready || is_all_ready m; dirty = true }

unfoldable pub handle_lobby_ready : Packet → Option (Unit {0}) → Peer → Server → Server
handle_lobby_ready p none peer s = s
handle_lobby_ready p (some _) peer s = elim (find_lobby peer.lobby_key s) [
  | none ↦ s
  | some l ↦ elim (playing_side p.conn l) [
    | none ↦ s
    | some i ↦ put_lobby peer.lobby_key (ready_lobby i p.message_number l) s
  ]
]

unfoldable pub clear_loaded : List LobbyMember → List LobbyMember
clear_loaded = map (with_flags clear_battle_loaded)

-- The reset for a rematch, with the new seed.
unfoldable pub ended_lobby : ℕ → Lobby → Lobby
ended_lobby seed l = clear_handoffs (record l {
  match_data = record (l.match_data) {
    ready_message_num = record { p1 = minus_one; p2 = minus_one };
    rng_seed = seed;
  };
  members = clear_loaded l.members;
  dirty = true;
})

unfoldable pub saw_ended : Str → Server → Server
saw_ended key s = elim (Map.find key s.match_forensics) [
  | none ↦ s
  | some f ↦ record s {
    match_forensics = Map.insert key (record f { saw_battle_ended = true }) s.match_forensics;
  }
]

-- `seed_gen` is the draws of the 64-bit generator of seeds.
unfoldable pub handle_battle_ended : (ℕ → ℕ) → Packet → Peer → Server → Server
handle_battle_ended seed_gen p peer s = elim (find_lobby peer.lobby_key s) [
  | none ↦ s
  | some l ↦
      let s' = saw_ended l.id.key s in
      put_lobby peer.lobby_key (ended_lobby (seed_gen s'.seeds_drawn % 2 ^ 32) l)
        (record s' { seeds_drawn = s'.seeds_drawn + 1 })
]

-- Undefined behaviour is taken to be an end of the model, with the server as it was.
unfoldable pub handle_reportresults : (Packet → Bool) → Packet → Option ℤ → Peer → Server → Server
handle_reportresults reallocates p none peer s = s
handle_reportresults reallocates p (some loser_side) peer s = elim (find_lobby peer.lobby_key s) [
  | none ↦ s
  | some l ↦ elim (handle_results (reallocates p) loser_side l) [
    | none ↦ net_call undefined_behaviour s
    | some l' ↦ put_lobby peer.lobby_key (record l' { dirty = true }) s
  ]
]

unfoldable pub reset_lobbies : Map Str Lobby → Map Str Lobby
reset_lobbies = map (λ e. (e.0, record (e.1) { members = clear_loaded e.1.members }))

-- ResetBattleSync
unfoldable pub reset_battle_sync : Server → Server
reset_battle_sync s = record s {
  registry = record (s.registry) { lobbies = reset_lobbies s.registry.lobbies };
}
