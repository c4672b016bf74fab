-- ===== src/Server/State/Sends.antt =====
-- The broadcasts of src/session/sf4e__SessionServer.cxx as lists of sends.
use sf4_rollback_gui.Prelude.{ℕ, ◌≡◌, sym, ap, ◌∙◌, List, [], ◌∷◌, ◌++◌, map}
use mathlib.Core.List.{append-nil, append_assoc}
use sf4_rollback_gui.Prelude.Map.{Map}
use sf4_rollback_gui.Protocol.{Message}
use sf4_rollback_gui.Registry.{LobbyMember}
use sf4_rollback_gui.Server.State.{
  Server, Peer, NetCall, send_message, respond, broadcast_to_members, broadcast_to_entries,
}

-- The same message to each connection.
abbrev pub sends : List ℕ → Message → List NetCall
sends conns m = map (λ c. send_message c m) conns

abbrev pub member_conns : List LobbyMember → List ℕ
member_conns ms = map (λ m. m.conn) ms

abbrev pub peer_conns : Map ℕ Peer → List ℕ
peer_conns es = map (λ e. e.0) es

pub broadcast_to_members-eq :
    (ms : List LobbyMember) (m : Message) (s : Server)
    → broadcast_to_members ms m s ≡ record s { net = s.net ++ sends (member_conns ms) m }
unfolding broadcast_to_members respond
broadcast_to_members-eq [] m s = ap (λ n. record s { net = n }) (sym (append-nil s.net))
broadcast_to_members-eq (x ∷ xs) m s =
    broadcast_to_members-eq xs m (respond x.conn m s)
    ∙ ap (λ n. record s { net = n })
        (append_assoc s.net (send_message x.conn m ∷ []) (sends (member_conns xs) m))

pub broadcast_to_entries-eq :
    (es : Map ℕ Peer) (m : Message) (s : Server)
    → broadcast_to_entries es m s ≡ record s { net = s.net ++ sends (peer_conns es) m }
unfolding broadcast_to_entries respond
broadcast_to_entries-eq [] m s = ap (λ n. record s { net = n }) (sym (append-nil s.net))
broadcast_to_entries-eq ((conn, p) ∷ es) m s =
    broadcast_to_entries-eq es m (respond conn m s)
    ∙ ap (λ n. record s { net = n })
        (append_assoc s.net (send_message conn m ∷ []) (sends (peer_conns es) m))
