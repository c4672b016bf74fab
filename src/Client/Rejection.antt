-- ===== src/Client/Rejection.antt =====
-- A refused join request on SessionClient of src/session/sf4e__SessionClient.cxx.
use sf4_rollback_gui.Prelude.{
  ◌≡◌, ◌≢◌, ◌⊎◌, inl, inr, refl, sym, ◌∙◌, ap, true, false, ℕ, List, [], ◌∷◌, ◌++◌, Option, none,
  some, ℤ, arith, Bool-cases,
}
use sf4_rollback_gui.Protocol.{
  JoinResult, join_ok, request_invalid, lobby_full, name_taken, hash_invalid, not_registered,
  already_in_lobby, no_such_lobby, handoff_invalid, server_full, join_rej,
}
use sf4_rollback_gui.Client.State.{
  Client, Libraries, on_error, close_connection, call, ErrorType, sce_unknown, hash_invalid_error,
  lobby_full_error, name_taken_error, request_invalid_error, not_registered_error,
  already_in_lobby_error, no_such_lobby_error, handoff_invalid_error, server_full_error,
}
use sf4_rollback_gui.Client.Snapshots.{failed, stops, goes_on, and_then, reconcile_snapshots}
use sf4_rollback_gui.Client.Receive.{
  Incoming, received, error_type, is_fatal, close_conn, handle_join_reject, handle_message,
  handle_incoming,
}
use sf4_rollback_gui.Client.Step.{ClientInput, handle_messages, end_step, poll, client_step}

-- A step in which messages were received.
abbrev pub received_input : List (Option Incoming) → ℤ → ClientInput
received_input ms recent = record { messages = some ms; recent = recent }

abbrev pub refused : JoinResult → Option Incoming
refused r = some (received (join_rej r))

running_step :
    (libs : Libraries) (i : ClientInput) (h : ℕ) (c : Client)
    → c.conn ≡ some h
    → c.connected ≡ true
    → client_step libs i c ≡ poll libs i.recent i.messages c
unfolding client_step
running_step libs i h c conn on = ground (arith, conn, on)

closed :
    (libs : Libraries) (i : ClientInput) (c : Client)
    → c.conn ≡ none
    → client_step libs i c ≡ (failed, c)
unfolding client_step
closed libs i c conn = ground (arith, conn)

-- The error that the app is told for each reason.
abbrev pub reported : JoinResult → ErrorType
reported hash_invalid = hash_invalid_error
reported lobby_full = lobby_full_error
reported name_taken = name_taken_error
reported request_invalid = request_invalid_error
reported not_registered = not_registered_error
reported already_in_lobby = already_in_lobby_error
reported no_such_lobby = no_such_lobby_error
reported handoff_invalid = handoff_invalid_error
reported server_full = server_full_error
reported join_ok = sce_unknown

error_type-eq : (r : JoinResult) → error_type r ≡ reported r
unfolding error_type
error_type-eq join_ok = refl
error_type-eq hash_invalid = refl
error_type-eq lobby_full = refl
error_type-eq name_taken = refl
error_type-eq request_invalid = refl
error_type-eq not_registered = refl
error_type-eq already_in_lobby = refl
error_type-eq no_such_lobby = refl
error_type-eq handoff_invalid = refl
error_type-eq server_full = refl

-- The reasons for which the client gives up, and the others.
abbrev pub IsFinal : JoinResult → Type 0
IsFinal r = (r ≡ hash_invalid) ⊎ (r ≡ name_taken) ⊎ (r ≡ server_full)

abbrev pub IsMild : JoinResult → Type 0
IsMild r = (r ≢ hash_invalid) × (r ≢ name_taken) × (r ≢ server_full)

is_fatal-IsFinal : (r : JoinResult) → is_fatal r ≡ true → IsFinal r
unfolding is_fatal
is_fatal-IsFinal hash_invalid e = inl refl
is_fatal-IsFinal name_taken e = inr (inl refl)
is_fatal-IsFinal server_full e = inr (inr refl)
is_fatal-IsFinal join_ok e = absurd (cc)
is_fatal-IsFinal lobby_full e = absurd (cc)
is_fatal-IsFinal request_invalid e = absurd (cc)
is_fatal-IsFinal not_registered e = absurd (cc)
is_fatal-IsFinal already_in_lobby e = absurd (cc)
is_fatal-IsFinal no_such_lobby e = absurd (cc)
is_fatal-IsFinal handoff_invalid e = absurd (cc)

is_fatal_ne : (r q : JoinResult) → is_fatal r ≡ false → is_fatal q ≡ true → r ≢ q
is_fatal_ne r q e f same = absurd (cc)

is_fatal-IsMild : (r : JoinResult) → is_fatal r ≡ false → IsMild r
unfolding is_fatal
is_fatal-IsMild r e = (
  is_fatal_ne r hash_invalid e refl,
  is_fatal_ne r name_taken e refl,
  is_fatal_ne r server_full e refl,
)

-- The client behind a fatal refusal.
abbrev pub dismissed : JoinResult → ℕ → Client → Client
dismissed r h c = record c {
  conn = none;
  calls = (c.calls ++ on_error (reported r) ∷ []) ++ close_connection h ∷ [];
}

fatal_reject :
    (r : JoinResult) (h : ℕ) (c : Client)
    → c.conn ≡ some h
    → is_fatal r ≡ true
    → handle_join_reject r c ≡ stops failed (dismissed r h c)
unfolding handle_join_reject close_conn call
fatal_reject r h c conn fatal = simp (error_type-eq r, fatal, conn)

mild_reject :
    (r : JoinResult) (c : Client)
    → is_fatal r ≡ false
    → handle_join_reject r c ≡ goes_on (call (on_error (reported r)) c)
unfolding handle_join_reject
mild_reject r c mild = simp (error_type-eq r, mild)

-- A connected client whose next message refuses its join. With a wrong hash, a taken name or a full
-- server it reports the error of that reason, closes its connection, leaves the messages behind it unread
-- and fails, and each later step fails too and changes nothing. With another reason it reports that
-- reason's error and goes on as if the message had not come.
pub client_step-refused :
    (libs : Libraries) (r : JoinResult) (rest : List (Option Incoming)) (recent : ℤ) (h : ℕ)
    (later : ClientInput) (c : Client)
    → c.conn ≡ some h
    → c.connected ≡ true
    → (IsFinal r
        × (client_step libs (received_input (refused r ∷ rest) recent) c
            ≡ (failed, dismissed r h c))
        × (client_step libs later (dismissed r h c) ≡ (failed, dismissed r h c)))
      ⊎ (IsMild r
          × (client_step libs (received_input (refused r ∷ rest) recent) c
              ≡ client_step libs (received_input rest recent) (call (on_error (reported r)) c)))
unfolding call poll handle_messages handle_incoming handle_message end_step
client_step-refused libs r rest recent h later c conn on = elim (Bool-cases (is_fatal r)) [
  | inl fatal ↦ inl (
    is_fatal-IsFinal r fatal,
    running_step libs (received_input (refused r ∷ rest) recent) h c conn on
        ∙ ap
            (λ x.
              end_step
                (and_then (and_then x (handle_messages libs rest)) (reconcile_snapshots recent)))
            (fatal_reject r h c conn fatal),
    closed libs later (dismissed r h c) refl,
  )
  | inr mild ↦ inr (
    is_fatal-IsMild r mild,
    running_step libs (received_input (refused r ∷ rest) recent) h c conn on
        ∙ ap
            (λ x.
              end_step
                (and_then (and_then x (handle_messages libs rest)) (reconcile_snapshots recent)))
            (mild_reject r c mild)
        ∙ sym (
            running_step libs (received_input rest recent) h (call (on_error (reported r)) c) conn
              on),
  )
]
