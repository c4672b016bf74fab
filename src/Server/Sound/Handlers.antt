-- ===== src/Server/Sound/Handlers.antt =====
-- The handlers that seat and unseat players, of src/session/sf4e__SessionServer.cxx keep the lobbies sound,
-- and so does the matchmaking.
use sf4_rollback_gui.Prelude.{
  ℕ, ◌≡◌, ◌∙◌, inl, inr, true, false, List, [], ◌∷◌, Option, none, some, Bool-cases, Str, is_empty,
  arith,
}
use sf4_rollback_gui.Protocol.{LobbyCreate, ChallengeAnswer, Packet}
use sf4_rollback_gui.Registry.{LobbySettings, create}
use sf4_rollback_gui.Registry.Create.{new_lobby}
use sf4_rollback_gui.Server.State.{
  Server, Peer, respond, respond_null_lobby_update, respond_challenge_result, peer_at, put_peer,
  find_lobby, put_lobby,
}
use sf4_rollback_gui.Server.Seats.{seat_in_lobby, add_member, create_pair_lobby}
use sf4_rollback_gui.Server.Lobbies.{handle_lobby_create, handle_lobby_leave}
use sf4_rollback_gui.Server.Challenge.{settle, handle_challenge_answer}
use sf4_rollback_gui.Server.Matchmaking.{
  Sort, expire_challenges, quick_match, pair_queue, step_matchmaking,
}
use sf4_rollback_gui.Server.Sound.Leaving.{remove_from_lobby-IsSound}
use sf4_rollback_gui.Server.Sound.{
  IsSound, IsSound-eq, seat_in_lobby-IsSound, seat_in_lobby-eq, find_lobby-put_lobby_self,
  find_lobby-put_peer, with_registry, find_lobby-create, create_seat-IsSound,
}
use sf4_rollback_gui.Server.Sound.Frame.{registry-expire_challenges}

pub handle_lobby_create-IsSound :
    (p : Packet) (r : Option LobbyCreate) (peer : Peer) (s : Server)
    → IsSound s.registry
    → IsSound (handle_lobby_create p r peer s).registry
unfolding handle_lobby_create respond
handle_lobby_create-IsSound p none peer s v = v
handle_lobby_create-IsSound p (some r) peer s v = elim (Bool-cases (is_empty peer.lobby_key)) [
  | inl lounge ↦ rw lounge (create_seat-IsSound s p.conn _ (omega arith) v)
  | inr seated ↦ rw seated v
]

pub handle_lobby_leave-IsSound :
    (p : Packet) (peer : Peer) (s : Server)
    → IsSound s.registry
    → IsSound (handle_lobby_leave p peer s).registry
unfolding handle_lobby_leave respond_null_lobby_update
handle_lobby_leave-IsSound p peer s v = ground (arith, remove_from_lobby-IsSound s p.conn v)

-- After the first seat the pair's lobby holds one member.
find_lobby-first_seat :
    (c : LobbySettings) (a : ℕ) (s : Server)
    → IsSound s.registry
    → (p : Peer) × (find_lobby
          (create c s.registry).0
          (seat_in_lobby a (create c s.registry).0 (with_registry (create c s.registry).1 s))
        ≡ some (add_member a p (new_lobby c s.registry)))
find_lobby-first_seat c a s v =
    let key = (create c s.registry).0 in
    let s' = with_registry (create c s.registry).1 s in
    let l = new_lobby c s.registry in
    (
      peer_at a s',
      rw (seat_in_lobby-eq s' a key l (find_lobby-create s c v)) (
          find_lobby-put_peer (put_lobby key (add_member a (peer_at a s') l) s') key a _
          ∙ find_lobby-put_lobby_self s' key _),
    )

pub create_pair_lobby-IsSound :
    (name : Str) (a b : ℕ) (s : Server)
    → IsSound s.registry
    → IsSound (create_pair_lobby name a b s).1.registry
unfolding create_pair_lobby add_member
create_pair_lobby-IsSound name a b s v =
    let c : LobbySettings = record {
      display_name = name;
      edition_select = s.match_edition_select;
      round_count = s.match_round_count;
      round_time = s.match_round_time;
      capacity = 2;
      persistent = false;
      unlisted = true;
    } in
    let (p, e) = find_lobby-first_seat c a s v in
    seat_in_lobby-IsSound
      (seat_in_lobby a (create c s.registry).0 (with_registry (create c s.registry).1 s)) b
      (create c s.registry).0 (add_member a p (new_lobby c s.registry)) e (omega arith)
      (create_seat-IsSound s a c (omega arith) v)

settle-IsSound :
    (p : Packet) (a : ChallengeAnswer) (conn : ℕ) (challenger answerer : Peer) (s : Server)
    → IsSound s.registry
    → IsSound (settle p a conn challenger answerer s).registry
unfolding settle respond_challenge_result
settle-IsSound p a conn challenger answerer s v = grind (arith, create_pair_lobby-IsSound)

pub handle_challenge_answer-IsSound :
    (p : Packet) (r : Option ChallengeAnswer) (answerer : Peer) (s : Server)
    → IsSound s.registry
    → IsSound (handle_challenge_answer p r answerer s).registry
unfolding handle_challenge_answer put_peer
handle_challenge_answer-IsSound p none answerer s v = v
handle_challenge_answer-IsSound p (some a) answerer s v = grind (arith, settle-IsSound)

quick_match-IsSound :
    (a b : ℕ) (s : Server) → IsSound s.registry → IsSound (quick_match a b s).registry
unfolding quick_match respond
quick_match-IsSound a b s v = create_pair_lobby-IsSound _ a b s v

pair_queue-IsSound :
    (queue : List ℕ) (s : Server) → IsSound s.registry → IsSound (pair_queue queue s).registry
unfolding pair_queue
pair_queue-IsSound [] s v = v
pair_queue-IsSound (a ∷ []) s v = v
pair_queue-IsSound (a ∷ b ∷ rest) s v =
    pair_queue-IsSound rest (quick_match a b s) (quick_match-IsSound a b s v)

pub step_matchmaking-IsSound :
    (sort : Sort) (now : ℕ) (s : Server)
    → IsSound s.registry
    → IsSound (step_matchmaking sort now s).registry
unfolding step_matchmaking
step_matchmaking-IsSound sort now s v =
    let s' = expire_challenges now s.peers s in
    pair_queue-IsSound _ s' (IsSound-eq (registry-expire_challenges now s.peers s) v)
