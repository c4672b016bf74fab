-- ===== src/Server/Matchmaking.antt =====
-- StepMatchmaking of src/session/sf4e__SessionServer.cxx. `std::sort` is not stable, so the order of
-- equal times is open: the sort is a parameter.
pub mod Queue
use sf4_rollback_gui.Prelude.{
  ℕ, Bool, not, ◌&&◌, List, [], ◌∷◌, lit, is_empty, ltb, if◌then◌else◌, sub64,
}
use sf4_rollback_gui.Prelude.Map.{Map}
use sf4_rollback_gui.Protocol.{expired, matchmake_event}
use sf4_rollback_gui.Server.State.{
  Server, Peer, respond, respond_challenge_result, peer_at, put_peer,
}
use sf4_rollback_gui.Server.Seats.{create_pair_lobby}
use sf4_rollback_gui.Server.Challenge.{without_challenge}

-- `std::sort` by a key: a parameter of what uses it.
abbrev pub Sort : Type 0
Sort = (ℕ → ℕ) → List ℕ → List ℕ

unfoldable pub is_expired : Server → ℕ → Peer → Bool
is_expired s now p =
    not (is_empty p.challenge_target) && ltb s.challenge_ttl_ms (sub64 now p.challenge_sent_at_ms)

-- The loop over the entries of `peers`.
unfoldable pub expire_challenges : ℕ → Map ℕ Peer → Server → Server
expire_challenges now [] s = s
expire_challenges now ((conn, p) ∷ rest) s = expire_challenges now rest (
    if is_expired s now p
    then put_peer conn (without_challenge p)
        (respond_challenge_result conn p.challenge_target expired s)
    else s)

unfoldable pub match_queue : Map ℕ Peer → List ℕ
match_queue [] = []
match_queue ((conn, p) ∷ rest) =
    let more = match_queue rest in
    if p.looking_for_match && is_empty p.lobby_key then conn ∷ more else more

unfoldable pub quick_match : ℕ → ℕ → Server → Server
quick_match a b s =
    let s' = (create_pair_lobby (lit "Quick match") a b s).1 in
    respond b (matchmake_event (peer_at a s').data_of.name)
      (respond a (matchmake_event (peer_at b s').data_of.name) s')

-- The loop over the sorted queue, two by two.
unfoldable pub pair_queue : List ℕ → Server → Server
pair_queue (a ∷ b ∷ rest) s = pair_queue rest (quick_match a b s)
pair_queue _ s = s

unfoldable pub step_matchmaking : Sort → ℕ → Server → Server
step_matchmaking sort now s =
    let s' = expire_challenges now s.peers s in
    pair_queue (sort (λ conn. (peer_at conn s').looking_since_ms) (match_queue s'.peers)) s'
