-- ===== src/Server/Tests/Presence.antt =====
-- Tests of the presence list.
use sf4_rollback_gui.Prelude.{refl, [], lit, str_eqb, str_ltb}
use sf4_rollback_gui.Prelude.Map
use sf4_rollback_gui.Prelude.Map.{nat_key, str_key}
use sf4_rollback_gui.Protocol.{in_match, battle_loaded_flag, is_all_ready}
use sf4_rollback_gui.Registry.{find_by_key}
use sf4_rollback_gui.Server.State.{find_lobby}
use sf4_rollback_gui.Server.Lobbies.{
  peer_status, statuses, fold_status, seated_status, is_live, any_loaded, rank,
}
use sf4_rollback_gui.Server.Lobbies.Presence.{AtLeast, Held, statuses-AtLeast, statuses-Held}
use sf4_rollback_gui.Server.Tests.{bob, peer_for, server}

statuses-AtLeast_example :
    AtLeast (peer_status server (peer_for bob)) (lit "bob") (statuses server server.peers [])
statuses-AtLeast_example = statuses-AtLeast server server.peers [] 1 (8, peer_for bob) refl

statuses-Held_example : Held server (lit "ann") in_match server.peers
unfolding statuses fold_status peer_status seated_status is_live any_loaded rank battle_loaded_flag
    is_all_ready find_lobby find_by_key Map.find Map.insert str_eqb str_ltb
statuses-Held_example = statuses-Held server (lit "ann") in_match refl
