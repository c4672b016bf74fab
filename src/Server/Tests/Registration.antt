-- ===== src/Server/Tests/Registration.antt =====
-- Tests of registration.
use sf4_rollback_gui.Prelude.{◌≡◌, ◌⊎◌, refl, [], lit}
use sf4_rollback_gui.Prelude.Map
use sf4_rollback_gui.Prelude.Map.{nat_key}
use sf4_rollback_gui.Protocol.{
  SessionJoinRequest, ConnectionId, JoinResult, null_lobby_id, non_json,
}
use sf4_rollback_gui.Server.State.{find_peer, respond_join_reject}
use sf4_rollback_gui.Server.Join.{new_peer, handle_register}
use sf4_rollback_gui.Server.Join.Register.{IsRegistered, Admissible, handle_register-gate}
use sf4_rollback_gui.Server.Tests.{server, packet}

-- A third player joins the lounge.
abbrev cat_request : SessionJoinRequest
cat_request = record {
  sidecar_hash = [];
  username = lit "cat";
  port = 7000;
  lobby = null_lobby_id;
  handoff = [];
  nat_flags = 0;
}

abbrev cat_cid : ConnectionId
cat_cid = record { host = lit "10.0.0.1:2346"; user = lit "9" }

handle_register-gate_example :
    ((¬ Admissible cat_request server)
      × ((e : JoinResult) × (handle_register cat_cid (packet 9 non_json) cat_request server
            ≡ respond_join_reject 9 e server)))
    ⊎ (IsRegistered 9
          (new_peer cat_cid (packet 9 non_json) cat_request).data_of
          (handle_register cat_cid (packet 9 non_json) cat_request server)
        × ((new_peer cat_cid (packet 9 non_json) cat_request).data_of.name ≡ lit "cat")
        × ((new_peer cat_cid (packet 9 non_json) cat_request).data_of.conn_id ≡ cat_cid)
        × Admissible cat_request server)
unfolding find_peer Map.find
handle_register-gate_example =
    handle_register-gate cat_cid (packet 9 non_json) cat_request server refl
