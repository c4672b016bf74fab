-- ===== src/Server/Forensics.antt =====
-- PairKey, NoteSeatDeath and NeedsRelayFallback of src/session/sf4e__SessionServer.cxx: the memory of
-- pairs of players whose direct connection never started a battle.
pub mod Pairs
pub mod Memory
use sf4_rollback_gui.Prelude.{
  ℕ, suc, ◌+◌, Bool, true, false, not, ◌&&◌, ◌||◌, List, [], ◌∷◌, ◌++◌, Option, none, some, Str,
  is_empty, length, ltb, leb, ◌==◌, if◌then◌else◌, sub64, str_ltb,
}
use sf4_rollback_gui.Prelude.Map
use sf4_rollback_gui.Prelude.Map.{Map, str_key}
use sf4_rollback_gui.Registry.{Lobby, LobbyMember}
use sf4_rollback_gui.Server.State.{Server, MatchForensic}

-- The separator is the byte 0x1f.
unfoldable pub pair_key : Str → Str → Str
pair_key a b = if str_ltb a b then a ++ (0x1f ∷ b) else b ++ (0x1f ∷ a)

-- The entry with the least time, the first such.
unfoldable pub oldest_entry : Str × ℕ → Map Str ℕ → Str × ℕ
oldest_entry best [] = best
oldest_entry best ((k, t) ∷ m) = oldest_entry (if ltb t best.1 then (k, t) else best) m

abbrev pub max_fallback_pairs : ℕ
max_fallback_pairs = 256

unfoldable pub make_room : Map Str ℕ → Map Str ℕ
make_room [] = []
make_room (e ∷ m) =
    if leb max_fallback_pairs (length (e ∷ m))
    then Map.erase (oldest_entry e m).0 (e ∷ m)
    else e ∷ m

unfoldable pub flag_pair : Str → ℕ → Map Str ℕ → Map Str ℕ
flag_pair key now m = Map.insert key now (make_room m)

-- The second of a match's game connections has died.
unfoldable pub close_forensic : Str → ℕ → MatchForensic → Server → Server
close_forensic lobby_key now f s =
    let lifespan = sub64 now f.second_handoff_at_ms in
    let rest = Map.erase lobby_key s.match_forensics in
    if not f.saw_battle_ended && ltb lifespan s.handshake_fail_window_ms
    then record s {
      relay_fallback_pairs = flag_pair (pair_key f.names.p1 f.names.p2) now s.relay_fallback_pairs;
      match_forensics = rest;
    }
    else record s { match_forensics = rest }

unfoldable pub note_seat_death : ℕ → Str → ℕ → Server → Server
note_seat_death conn lobby_key now s =
    if is_empty lobby_key then s else elim (Map.find lobby_key s.match_forensics) [
      | none ↦ s
      | some f ↦
          if not (conn == f.game_conns.p1) && not (conn == f.game_conns.p2)
          then s
          else let dead = f.game_conns_dead + 1 in
            let counted = record f { game_conns_dead = dead } in
            if ltb dead 2
            then record s { match_forensics = Map.insert lobby_key counted s.match_forensics }
            else close_forensic lobby_key now counted s
    ]

-- The lookup for the pair of names, which drops an entry that has expired.
unfoldable pub check_fallback : Str → ℕ → Server → Bool × Server
check_fallback key now s = elim (Map.find key s.relay_fallback_pairs) [
  | none ↦ (false, s)
  | some t ↦
      if ltb s.relay_fallback_ttl_ms (sub64 now t)
      then (false, record s { relay_fallback_pairs = Map.erase key s.relay_fallback_pairs })
      else (true, s)
]

unfoldable pub needs_relay_fallback : List LobbyMember → ℕ → Server → Bool × Server
needs_relay_fallback (a ∷ b ∷ rest) now s =
    check_fallback (pair_key a.data_of.name b.data_of.name) now s
needs_relay_fallback _ now s = (false, s)
