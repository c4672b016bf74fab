-- ===== src/Session.antt =====
-- A client of src/session/sf4e__SessionClient.cxx and the server of
-- src/session/sf4e__SessionServer.cxx in conversation: the network library hands the last thing that
-- one of them sent to the other.
pub mod Handshake
pub mod Ready
pub mod Tests
use sf4_rollback_gui.Prelude.{
  ℕ, ◌≡◌, ◌==◌, ◌∙◌, ap, ==_iff, refl, Bool, true, false, List, [], ◌∷◌, ◌++◌, Option, none, some,
  if◌then◌else◌,
}
use sf4_rollback_gui.Protocol.{Packet, Body, typed, Request, Message}
use sf4_rollback_gui.Server.State.{Server, NetCall, send_message}
use sf4_rollback_gui.Server.Step.{Env, handle_packet}
use sf4_rollback_gui.Client.State.{Client, Libraries, Call, send_request}
use sf4_rollback_gui.Client.Snapshots.{Progress, goes_on}
use sf4_rollback_gui.Client.Receive.{handle_message}

unfoldable pub last {ℓ} : {A : Type ℓ} → List A → Option A
last [] = none
last (x ∷ []) = some x
last (x ∷ y ∷ ys) = last (y ∷ ys)

pub last-append {ℓ} : {A : Type ℓ} (xs : List A) (x : A) → last (xs ++ x ∷ []) ≡ some x
unfolding last
last-append [] x = refl
last-append (y ∷ []) x = refl
last-append (y ∷ z ∷ zs) x = last-append (z ∷ zs) x

-- The packet `p` with the client's request as its body.
abbrev pub carrying : Packet → Request → Packet
carrying p r = record p { body = typed r }

abbrev pub hand_over : Env → Packet → Option Call → Server → Server
hand_over env p (some (send_request r)) s = handle_packet env (carrying p r) s
hand_over env p _ s = s

-- The client's last request reaches the server in a packet with the fields of `p`.
unfoldable pub to_server : Env → Packet → Client → Server → Server
to_server env p c s = hand_over env p (last c.calls) s

abbrev pub hand_back : Libraries → ℕ → Option NetCall → Client → Progress
hand_back libs conn (some (send_message to m)) c =
    if to == conn then handle_message libs m c else goes_on c
hand_back libs conn _ c = goes_on c

-- The server's last message, if it goes to the connection, reaches the client.
unfoldable pub to_client : Libraries → ℕ → Server → Client → Progress
to_client libs conn s c = hand_back libs conn (last s.net) c

pub to_server_request :
    (env : Env) (p : Packet) (c : Client) (s : Server) (r : Request)
    → last c.calls ≡ some (send_request r)
    → to_server env p c s ≡ handle_packet env (carrying p r) s
unfolding to_server
to_server_request env p c s r e = ap (λ o. hand_over env p o s) e

pub to_client_message :
    (libs : Libraries) (conn : ℕ) (s : Server) (c : Client) (m : Message)
    → last s.net ≡ some (send_message conn m)
    → to_client libs conn s c ≡ handle_message libs m c
unfolding to_client
to_client_message libs conn s c m e = ap (λ o. hand_back libs conn o c) e ∙ same
  where
    same : (if conn == conn then handle_message libs m c else goes_on c) ≡ handle_message libs m c
    same = rw ((==_iff conn conn).1 refl) refl
