-- ===== src/Client/Agreement/Run.antt =====
-- Along a life: two games that hold the same state never end a match by a report of a desync, on the client of
-- src/session/sf4e__SessionClient.cxx.
use sf4_rollback_gui.Prelude.{
  ℕ, ◌≡◌, refl, sym, inl, inr, subst, Bool, true, false, List, [], ◌∷◌, Option, none, some, ℤ, Str,
  if◌then◌else◌, arith, Bool-cases, All,
}
use sf4_rollback_gui.Prelude.Map.{int_key}
use sf4_rollback_gui.Protocol.{
  StateSnapshot, Message, snapshot, hello_resp, join_rej, data_update, lobby_create_resp,
  lobby_list_resp, presence_list_resp, challenge_event, challenge_result, matchmake_event,
  chat_event, match_handoff, lobby_allready, battle_synced, forwarded, LobbyData, MatchData,
  JoinResult,
}
use sf4_rollback_gui.Client.Agreement.{
  Agrees, GoesWell, receive_snapshot-GoesWell, and_then-GoesWell, reconcile_snapshots-GoesWell,
  Agrees-capture, Agrees-same,
}
use sf4_rollback_gui.Client.State.{
  Client, Libraries, Callbacks, new_client, send, call, Call, on_error,
}
use sf4_rollback_gui.Client.Snapshots.{
  Outcome, finished, failed, threw, exited, Progress, goes_on, stops, and_then, reconcile_snapshots,
}
use sf4_rollback_gui.Client.Receive.{
  Incoming, not_json, no_type, unreadable, received, handle_incoming, handle_message,
  handle_snapshot, call_if, acknowledge, handle_hello_resp, handle_data_update, close_conn,
  handle_join_reject, is_fatal, error_type,
}
use sf4_rollback_gui.Client.Step.{handle_messages, poll, client_step-cases, end_step}
use sf4_rollback_gui.Client.Requests.{ask, lobby_ready_request}
use sf4_rollback_gui.Client.Connection.{
  ConnectionState, connect_existing, connect, disconnect, status_changed, drop_handle,
}
use sf4_rollback_gui.Client.Life.{
  Action, captures, polls, attaches, connects, disconnects, readies, changes_status, asks, act,
  live, is_over,
}

acknowledge-same :
    (l : LobbyData) (m : MatchData) (c : Client)
    → ((acknowledge l m c).snapshot_map ≡ c.snapshot_map)
      × ((acknowledge l m c).pending_remote_snapshots ≡ c.pending_remote_snapshots)
unfolding acknowledge
acknowledge-same l m c = ground arith

close_conn-same :
    (c : Client)
    → ((close_conn c).snapshot_map ≡ c.snapshot_map)
      × ((close_conn c).pending_remote_snapshots ≡ c.pending_remote_snapshots)
unfolding close_conn call
close_conn-same c = ground arith

disconnect-same :
    (c : Client)
    → ((disconnect c).snapshot_map ≡ c.snapshot_map)
      × ((disconnect c).pending_remote_snapshots ≡ c.pending_remote_snapshots)
unfolding disconnect call
disconnect-same c = ground arith

status_changed-same :
    (s : ConnectionState) (handle : ℕ) (c : Client)
    → ((status_changed s handle c).snapshot_map ≡ c.snapshot_map)
      × ((status_changed s handle c).pending_remote_snapshots ≡ c.pending_remote_snapshots)
unfolding status_changed drop_handle send call
status_changed-same s handle c = ground arith

module _ (game : ℤ → StateSnapshot) where
  Agrees-call_if : (b : Bool) (k : Call) (c : Client) → Agrees game c → Agrees game (call_if b k c)
  unfolding call_if call
  Agrees-call_if true k c h = record { local = h.local; remote = h.remote }
  Agrees-call_if false k c h = h

  Agrees-acknowledge :
      (l : LobbyData) (m : MatchData) (c : Client) → Agrees game c → Agrees game (acknowledge l m c)
  Agrees-acknowledge l m c h =
      let (p, q) = acknowledge-same l m c in Agrees-same game c (acknowledge l m c) p q h

  Agrees-close_conn : (c : Client) → Agrees game c → Agrees game (close_conn c)
  Agrees-close_conn c h = let (p, q) = close_conn-same c in Agrees-same game c (close_conn c) p q h

  handle_join_reject-GoesWell :
      (r : JoinResult) (c : Client) → Agrees game c → GoesWell game (handle_join_reject r c)
  unfolding handle_join_reject GoesWell call
  handle_join_reject-GoesWell r c h = elim (Bool-cases (is_fatal r)) [
    | inl y ↦ rw y (
        Agrees-close_conn (call (on_error (error_type r)) c)
          (record { local = h.local; remote = h.remote }))
    | inr n ↦ rw n (record { local = h.local; remote = h.remote })
  ]

  module _ (libs : Libraries) where
    -- A message that carries a snapshot carries the game's own.
    abbrev Fits : Option StateSnapshot → Type 0
    Fits none = Unit
    Fits (some m) = m ≡ game m.frame_idx

    abbrev FitsMessage : Message → Type 0
    FitsMessage (snapshot text) = Fits (libs.read_snapshot text)
    FitsMessage _ = Unit

    handle_snapshot-GoesWell :
        (o : Option StateSnapshot) (c : Client)
        → Fits o
        → Agrees game c
        → GoesWell game (handle_snapshot o c)
    unfolding handle_snapshot GoesWell
    handle_snapshot-GoesWell none c f h = h
    handle_snapshot-GoesWell (some m) c f h = receive_snapshot-GoesWell game m c f h

    handle_message-GoesWell :
        (m : Message) (c : Client)
        → FitsMessage m
        → Agrees game c
        → GoesWell game (handle_message libs m c)
    unfolding handle_message GoesWell handle_hello_resp handle_data_update send call
    handle_message-GoesWell (hello_resp cid version) c f h = record {
      local = h.local;
      remote = h.remote;
    }
    handle_message-GoesWell (join_rej r) c f h = handle_join_reject-GoesWell r c h
    handle_message-GoesWell (data_update l m) c f h =
        Agrees-acknowledge l m (record c { lobby_data = l; match_data = m })
          (record { local = h.local; remote = h.remote })
    handle_message-GoesWell (lobby_create_resp r id) c f h = Agrees-call_if _ _ c h
    handle_message-GoesWell (lobby_list_resp ls) c f h =
        Agrees-call_if _ _ (record c { lobby_listing = ls })
          (record { local = h.local; remote = h.remote })
    handle_message-GoesWell (presence_list_resp ps n) c f h =
        Agrees-call_if _ _ (record c { presence = ps; looking_count = n })
          (record { local = h.local; remote = h.remote })
    handle_message-GoesWell (challenge_event from) c f h = Agrees-call_if _ _ c h
    handle_message-GoesWell (challenge_result target r) c f h = Agrees-call_if _ _ c h
    handle_message-GoesWell (matchmake_event opponent) c f h = Agrees-call_if _ _ c h
    handle_message-GoesWell (match_handoff token id) c f h = Agrees-call_if _ _ c h
    handle_message-GoesWell (chat_event e) c f h = Agrees-call_if _ _ c h
    handle_message-GoesWell lobby_allready c f h = record { local = h.local; remote = h.remote }
    handle_message-GoesWell battle_synced c f h = record { local = h.local; remote = h.remote }
    handle_message-GoesWell (forwarded text) c f h = h
    handle_message-GoesWell (snapshot text) c f h =
        handle_snapshot-GoesWell (libs.read_snapshot text) c f h

    abbrev FitsIncoming : Option Incoming → Type 0
    FitsIncoming (some (received m)) = FitsMessage m
    FitsIncoming _ = Unit

    handle_incoming-GoesWell :
        (m : Incoming) (c : Client)
        → FitsIncoming (some m)
        → Agrees game c
        → GoesWell game (handle_incoming libs m c)
    unfolding handle_incoming GoesWell
    handle_incoming-GoesWell not_json c f h = h
    handle_incoming-GoesWell no_type c f h = h
    handle_incoming-GoesWell unreadable c f h = h
    handle_incoming-GoesWell (received m) c f h = handle_message-GoesWell m c f h

    handle_messages-GoesWell :
        (ms : List (Option Incoming)) (c : Client)
        → All FitsIncoming ms
        → Agrees game c
        → GoesWell game (handle_messages libs ms c)
    unfolding handle_messages GoesWell
    handle_messages-GoesWell [] c f h = h
    handle_messages-GoesWell (none ∷ ms) c f h = h
    handle_messages-GoesWell (some m ∷ ms) c f h =
        and_then-GoesWell game (handle_incoming libs m c) (handle_messages libs ms)
          (λ c' w. handle_messages-GoesWell ms c' f.1 w) (handle_incoming-GoesWell m c f.0 h)

    abbrev FitsPoll : Option (List (Option Incoming)) → Type 0
    FitsPoll none = Unit
    FitsPoll (some ms) = All FitsIncoming ms

    -- An action that gives the client nothing but what the game holds.
    abbrev pub FitsAction : Action → Type 0
    FitsAction (captures s) = s ≡ game s.frame_idx
    FitsAction (polls i) = FitsPoll i.messages
    FitsAction _ = Unit

    abbrev RunsOn : Outcome × Client → Type 0
    RunsOn (finished, c) = Agrees game c
    RunsOn (failed, c) = Agrees game c
    RunsOn (threw, c) = Agrees game c
    RunsOn (exited r, c) = ⊥

    end_step-RunsOn : (p : Progress) → GoesWell game p → RunsOn (end_step p)
    unfolding end_step GoesWell
    end_step-RunsOn (goes_on c) w = w
    end_step-RunsOn (stops finished c) w = w
    end_step-RunsOn (stops failed c) w = w
    end_step-RunsOn (stops threw c) w = w
    end_step-RunsOn (stops (exited r) c) w = w

    poll-RunsOn :
        (recent : ℤ) (o : Option (List (Option Incoming))) (c : Client)
        → FitsPoll o
        → Agrees game c
        → RunsOn (poll libs recent o c)
    unfolding poll
    poll-RunsOn recent none c f h = h
    poll-RunsOn recent (some ms) c f h =
        end_step-RunsOn (and_then (handle_messages libs ms c) (reconcile_snapshots recent)) (
          and_then-GoesWell game (handle_messages libs ms c) (reconcile_snapshots recent)
            (reconcile_snapshots-GoesWell game recent) (handle_messages-GoesWell ms c f h))

    act-RunsOn : (a : Action) (c : Client) → FitsAction a → Agrees game c → RunsOn (act libs a c)
    unfolding act connect_existing connect ask lobby_ready_request send call
    act-RunsOn (captures s) c f h = Agrees-capture game s c f h
    act-RunsOn (polls i) c f h = elim (client_step-cases libs i c) [
      | inl (_, e) ↦ subst RunsOn (sym e) h
      | inr (inl (_, e)) ↦ subst RunsOn (sym e) h
      | inr (inr (_, e)) ↦ subst RunsOn (sym e) (poll-RunsOn i.recent i.messages c f h)
    ]
    act-RunsOn (attaches conn) c f h = record { local = h.local; remote = h.remote }
    act-RunsOn (connects addr handle) c f h = record { local = h.local; remote = h.remote }
    act-RunsOn disconnects c f h =
        let (p, q) = disconnect-same c in Agrees-same game c (disconnect c) p q h
    act-RunsOn readies c f h = record { local = h.local; remote = h.remote }
    act-RunsOn (changes_status s handle) c f h =
        let (p, q) = status_changed-same s handle c in
        Agrees-same game c (status_changed s handle c) p q h
    act-RunsOn (asks r) c f h = record { local = h.local; remote = h.remote }

    next_action :
        (rest : List Action) (r : Outcome × Client)
        → ((c : Client) → Agrees game c → RunsOn (live libs rest c))
        → RunsOn r
        → RunsOn (if is_over r.0 then (r.0, r.1) else live libs rest r.1)
    unfolding is_over
    next_action rest (finished, c) later w = later c w
    next_action rest (failed, c) later w = later c w
    next_action rest (threw, c) later w = w
    next_action rest (exited r, c) later w = w

    live-RunsOn :
        (actions : List Action) (c : Client)
        → All FitsAction actions
        → Agrees game c
        → RunsOn (live libs actions c)
    unfolding live
    live-RunsOn [] c f h = h
    live-RunsOn (a ∷ rest) c f h =
        next_action rest (act libs a c) (λ c'. live-RunsOn rest c' f.1) (act-RunsOn a c f.0 h)

unfoldable pub is_exit : Outcome → Bool
is_exit (exited reason) = true
is_exit _ = false

not_exit :
    (game : ℤ → StateSnapshot) (libs : Libraries) (r : Outcome × Client)
    → RunsOn game libs r
    → is_exit r.0 ≡ false
unfolding is_exit
not_exit game libs (finished, c) w = refl
not_exit game libs (failed, c) w = refl
not_exit game libs (threw, c) w = refl
not_exit game libs (exited r, c) w = elim w [ ]

-- Let the snapshots that the game of a fresh client captures, and those that it receives from the
-- opponent, be the same for each frame. Then no life of the client, in whatever order it captures,
-- polls, connects, disconnects and sends, ends in the report of a desync.
pub agreeing_games_play_on :
    (game : ℤ → StateSnapshot) (libs : Libraries) (callbacks : Callbacks) (sidecar_hash : Str)
    (ggpo_port : ℕ) (name : Str) (actions : List Action)
    → All (FitsAction game libs) actions
    → is_exit (live libs actions (new_client callbacks sidecar_hash ggpo_port name)).0 ≡ false
unfolding new_client
agreeing_games_play_on game libs callbacks sidecar_hash ggpo_port name actions fits =
    not_exit game libs (live libs actions (new_client callbacks sidecar_hash ggpo_port name)) (
      live-RunsOn game libs actions (new_client callbacks sidecar_hash ggpo_port name) fits
        (record { local = tt; remote = tt }))
