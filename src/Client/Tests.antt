-- ===== src/Client/Tests.antt =====
-- Runs of the client of src/session/sf4e__SessionClient.cxx at concrete inputs.
use sf4_rollback_gui.Prelude.{
  ℕ, ◌≡◌, ◌⊎◌, refl, true, false, ◌||◌, List, [], ◌∷◌, ◌++◌, some, ℤ, pos, minus_one, lit,
}
use sf4_rollback_gui.Protocol.{
  CharaStateSnapshot, StateSnapshot, null_lobby, cleared_match, null_lobby_id, FixedPoint,
  hash_invalid, snapshot,
}
use sf4_rollback_gui.Client.State.{
  Client, Callbacks, Libraries, LocalSnapshot, new_client, cleared_address, on_error, call,
}
use sf4_rollback_gui.Client.Snapshots.{
  failed, exited, goes_on, stops, reconciliation_reason, is_young, reconcile_snapshots,
}
use sf4_rollback_gui.Client.Snapshots.Settled.{
  has_conflict, due, is_settled, reconcile_snapshots_lem,
}
use sf4_rollback_gui.Client.Receive.{received}
use sf4_rollback_gui.Client.Step.{client_step}
use sf4_rollback_gui.Client.Life.{Action, captures, polls, live}
use sf4_rollback_gui.Client.Agreement.Run.{is_exit, agreeing_games_play_on}
use sf4_rollback_gui.Client.State.{hash_invalid_error}
use sf4_rollback_gui.Client.Rejection.{
  received_input, refused, dismissed, IsFinal, IsMild, client_step-refused,
}

abbrev fixed_zero : FixedPoint
fixed_zero = record { fractional = 0; integral = pos 0 }

abbrev chara_with : ℕ → CharaStateSnapshot
chara_with vit = record {
  status = pos 1;
  root_pos = 0 ∷ 0 ∷ 0 ∷ 0 ∷ [];
  chara_side = pos 0;
  vit = record { fractional = 0; integral = pos vit };
  vitmax = record { fractional = 0; integral = pos 1000 };
  revenge = fixed_zero;
  revengemax = fixed_zero;
  recoverable = fixed_zero;
  recoverablemax = fixed_zero;
  super = fixed_zero;
  supermax = fixed_zero;
  sctimeamt = fixed_zero;
  sctimemax = fixed_zero;
  uctime = fixed_zero;
  uctimemax = fixed_zero;
  damage = fixed_zero;
  combodamage = fixed_zero;
}

-- The snapshot of a frame at which the players have the same vitality.
abbrev snap : ℤ → ℕ → StateSnapshot
snap frame vit = record {
  frame_idx = frame;
  chara = record { p1 = chara_with vit; p2 = chara_with vit };
}

abbrev no_callbacks : Callbacks
no_callbacks = record {
  has_lobby_created = false;
  has_lobby_list = false;
  has_chat = false;
  has_match_handoff = false;
  has_presence = false;
  has_challenge_event = false;
  has_challenge_result = false;
  has_matchmake_event = false;
}

-- Every send succeeds as message 5, and a snapshot message is the one of frame 60.
abbrev pub libraries : Libraries
libraries = record {
  send_result = λ n. record { result = 1; message_number = pos 5 };
  read_snapshot = λ text. some (snap (pos 60) 900);
}

abbrev pub ann_client : Client
ann_client = record {
  name = lit "ann";
  lobby_data = null_lobby;
  match_data = cleared_match;
  lobby_listing = [];
  presence = [];
  looking_count = 0;
  outstanding_ready = minus_one;
  snapshots_enabled = true;
  auto_join_lobby = null_lobby_id;
  auto_join_handoff = [];
  server_version = [];
  sidecar_hash = lit "hash";
  ggpo_port = 23456;
  reported_ggpo_port = 23456;
  nat_flags = 0;
  server_addr = cleared_address;
  pending_remote_snapshots = [];
  cid = record { host = []; user = [] };
  callbacks = no_callbacks;
  connected = true;
  conn = some 3;
  snapshot_map = [];
  sends = 0;
  calls = [];
}

abbrev waiting : StateSnapshot → LocalSnapshot
waiting s = record { snapshot = s; sent = false; confirmed = false }

-- At frame 125, with the frames 60 and 120 captured, and the opponent's frame 60 there.
abbrev fighting : Client
fighting = record (ann_client) {
  snapshot_map =
      (pos 60, waiting (snap (pos 60) 900)) ∷ (pos 120, waiting (snap (pos 120) 850)) ∷ [];
  pending_remote_snapshots = (pos 60, snap (pos 60) 900) ∷ [];
}

reconcile_snapshots_lem_example :
    ((has_conflict (pos 125) fighting.snapshot_map fighting.pending_remote_snapshots ≡ true)
      × ((c' : Client) × (reconcile_snapshots (pos 125) fighting
            ≡ stops (exited reconciliation_reason) c')))
    ⊎ ((has_conflict (pos 125) fighting.snapshot_map fighting.pending_remote_snapshots ≡ false)
        × ((c' : Client) × (reconcile_snapshots (pos 125) fighting ≡ goes_on c')
            × (c'.calls ≡ fighting.calls ++ due (pos 125) fighting.snapshot_map)
            × ((is_young (pos 125) (pos 60) || is_settled (pos 60) c') ≡ true)))
reconcile_snapshots_lem_example = reconcile_snapshots_lem (pos 125) (pos 60) fighting refl

abbrev even_game : ℤ → StateSnapshot
even_game frame = snap frame 900

abbrev first_minute : List Action
first_minute =
    captures (snap (pos 60) 900)
    ∷ polls (received_input (some (received (snapshot (lit "{}"))) ∷ []) (pos 90))
    ∷ captures (snap (pos 120) 900)
    ∷ polls (received_input [] (pos 125))
    ∷ []

agreeing_games_play_on_example :
    is_exit (live libraries first_minute (new_client no_callbacks [] 23456 (lit "ann"))).0 ≡ false
agreeing_games_play_on_example =
    agreeing_games_play_on even_game libraries no_callbacks [] 23456 (lit "ann") first_minute
      (refl, ((refl, tt), (refl, (tt, tt))))

client_step-refused_example :
    (IsFinal hash_invalid
      × (client_step libraries (received_input (refused hash_invalid ∷ []) (pos 0)) ann_client
          ≡ (failed, dismissed hash_invalid 3 ann_client))
      × (client_step libraries (received_input [] (pos 1)) (dismissed hash_invalid 3 ann_client)
          ≡ (failed, dismissed hash_invalid 3 ann_client)))
    ⊎ (IsMild hash_invalid
        × (client_step libraries (received_input (refused hash_invalid ∷ []) (pos 0)) ann_client
            ≡ client_step libraries
                (received_input [] (pos 0))
                (call (on_error hash_invalid_error) ann_client)))
client_step-refused_example =
    client_step-refused libraries hash_invalid [] (pos 0) 3 (received_input [] (pos 1)) ann_client
      refl refl
