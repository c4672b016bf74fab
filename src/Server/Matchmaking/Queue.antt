-- ===== src/Server/Matchmaking/Queue.antt =====
-- The pairing of the queue in StepMatchmaking of src/session/sf4e__SessionServer.cxx.
use sf4_rollback_gui.Prelude.{ℕ, ◌≡◌, ◌≢◌, List, [], ◌∷◌, some, Str, lit, All}
use sf4_rollback_gui.Registry.{Lobby}
use sf4_rollback_gui.Server.State.{Server, Peer, find_peer, find_lobby}
use sf4_rollback_gui.Server.State.Sends.{member_conns}
use sf4_rollback_gui.Server.Seats.{create_pair_lobby}
use sf4_rollback_gui.Server.Sound.{IsSound}

-- The two connections are the members of one lobby, and both peers know that.
pub record Together (a b : ℕ) (s : Server) : Type 0 where
  pub key : Str
  pub lobby : Lobby
  pub first : Peer
  pub second : Peer
  pub found : find_lobby key s ≡ some lobby
  pub seats : member_conns lobby.members ≡ a ∷ b ∷ []
  pub first_found : find_peer a s ≡ some first
  pub second_found : find_peer b s ≡ some second
  pub first_key : first.lobby_key ≡ key
  pub second_key : second.lobby_key ≡ key

-- The connections of the queue, two by two; a last one without a partner waits.
abbrev pub Paired : List ℕ → Server → Type 0
Paired [] s = Unit
Paired (a ∷ []) s = Unit
Paired (a ∷ b ∷ rest) s = Together a b s × Paired rest s

abbrev pub Registered : List ℕ → Server → Type 0
Registered qs s = All (λ c. (p : Peer) × (find_peer c s ≡ some p)) qs

abbrev pub Distinct : List ℕ → Type 0
Distinct [] = Unit
Distinct (a ∷ qs) = All (λ c. a ≢ c) qs × Distinct qs

module _ (a b : ℕ) (p q : Peer) (s : Server) (v : IsSound s.registry) (ne : a ≢ b)
    (pa : find_peer a s ≡ some p) (qb : find_peer b s ≡ some q) where
  -- The messages to the two change nothing else.
  abbrev paired : Server
  paired = (create_pair_lobby (lit "Quick match") a b s).1

  abbrev key_of : Str
  key_of = (create_pair_lobby (lit "Quick match") a b s).0
