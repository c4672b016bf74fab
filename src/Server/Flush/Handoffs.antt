-- ===== src/Server/Flush/Handoffs.antt =====
-- From the all-ready round of src/session/sf4e__SessionServer.cxx to the game processes: the tokens
-- that SessionServer::Step hands out, and what a join request with one of them finds.
use sf4_rollback_gui.Prelude.{
  ℕ, suc, ◌≤◌, ◌≡◌, ◌≢◌, refl, ap, ◌∙◌, inl, inr, true, false, List, [], ◌∷◌, ◌++◌, some, Str,
  sub64, str_eqb, str_eqb_iff, str_eqb_refl, Bool-cases, leb, arith,
}
use mathlib.Core.List.{append_assoc}
use sf4_rollback_gui.Prelude.Map
use sf4_rollback_gui.Prelude.Map.{str_key}
use sf4_rollback_gui.Protocol.{lobby_allready, match_handoff}
use sf4_rollback_gui.Registry.{Lobby, LobbyMember, PendingHandoff, clear_handoffs, find_by_key}
use sf4_rollback_gui.Server.State.{Server, send_message, respond, find_lobby, put_lobby}
use sf4_rollback_gui.Server.State.Sends.{sends, member_conns, broadcast_to_members-eq}
use sf4_rollback_gui.Server.Join.{redeem}
use sf4_rollback_gui.Server.Flush.{handoff_token, issue_tokens, send_handoffs, flush_all_ready}

-- The handoff of a seat, from the `k`-th token.
abbrev pub issued : (ℕ → ℕ) → ℕ → ℕ → ℕ → PendingHandoff
issued gen k seat now = record { token = handoff_token gen k; seat = seat; issued_at_ms = now }

issue_tokens-two :
    (gen : ℕ → ℕ) (k now : ℕ) (a b : LobbyMember) (rest : List LobbyMember)
    → issue_tokens gen k 0 now (a ∷ b ∷ rest)
      ≡ (a, issued gen k 0 now) ∷ (b, issued gen (suc k) 1 now) ∷ []
unfolding issue_tokens
issue_tokens-two gen k now a b [] = refl
issue_tokens-two gen k now a b (c ∷ rest) = refl

-- The lobby as the round leaves it.
abbrev pub handed : (ℕ → ℕ) → ℕ → ℕ → Lobby → Lobby
handed gen k now l = record l {
  send_all_ready = false;
  pending_handoffs = issued gen k 0 now ∷ issued gen (suc k) 1 now ∷ [];
  pending_all_ready_sends = [];
}

issue_tokens-members :
    (gen : ℕ → ℕ) (k now : ℕ) (l : Lobby) (a b : LobbyMember) (rest : List LobbyMember)
    → l.members ≡ a ∷ b ∷ rest
    → issue_tokens gen k 0 now l.members
      ≡ (a, issued gen k 0 now) ∷ (b, issued gen (suc k) 1 now) ∷ []
issue_tokens-members gen k now l a b rest two = rw two (issue_tokens-two gen k now a b rest)

-- The server after the round, before the two handoffs are sent.
abbrev pub announced : (ℕ → ℕ) → Str → ℕ → Lobby → Server → Server
announced gen key now l s =
    put_lobby key (handed gen s.tokens_drawn now l)
      (record s { net = s.net ++ sends (member_conns l.members) lobby_allready })

flush_all_ready-eq :
    (gen : ℕ → ℕ) (key : Str) (now : ℕ) (l : Lobby) (a b : LobbyMember) (rest : List LobbyMember)
    (s : Server)
    → find_lobby key s ≡ some l
    → l.send_all_ready ≡ true
    → l.members ≡ a ∷ b ∷ rest
    → flush_all_ready gen key now s
      ≡ send_handoffs l.id
          ((a, issued gen s.tokens_drawn 0 now) ∷ (b, issued gen (suc s.tokens_drawn) 1 now) ∷ [])
          (announced gen key now l s)
unfolding flush_all_ready clear_handoffs
flush_all_ready-eq gen key now l a b rest s e ready two = rw (
  flush_all_ready,
  e,
  ready,
  issue_tokens-members gen s.tokens_drawn now l a b rest two,
  broadcast_to_members-eq l.members lobby_allready s,
)

module _ (gen : ℕ → ℕ) (key : Str) (now : ℕ) (l : Lobby) (a b : LobbyMember) (s : Server) where
  abbrev both : List (LobbyMember × PendingHandoff)
  both = (a, issued gen s.tokens_drawn 0 now) ∷ (b, issued gen (suc s.tokens_drawn) 1 now) ∷ []

  handoffs-net :
      (send_handoffs l.id both (announced gen key now l s)).net
      ≡ s.net
        ++ (sends (member_conns l.members) lobby_allready
            ++ send_message a.conn (match_handoff (handoff_token gen s.tokens_drawn) l.id)
              ∷ send_message b.conn (match_handoff (handoff_token gen (suc s.tokens_drawn)) l.id)
              ∷ [])
  unfolding send_handoffs respond put_lobby
  handoffs-net =
      let all = sends (member_conns l.members) lobby_allready in
      let to_a = send_message a.conn (match_handoff (handoff_token gen s.tokens_drawn) l.id) ∷ [] in
      let to_b =
        send_message b.conn (match_handoff (handoff_token gen (suc s.tokens_drawn)) l.id) ∷ [] in
      ap (λ n. n ++ to_b) (append_assoc s.net all to_a)
      ∙ append_assoc s.net (all ++ to_a) to_b
      ∙ ap (λ n. s.net ++ n) (append_assoc all to_a to_b)

  handoffs-find :
      find_lobby key (send_handoffs l.id both (announced gen key now l s))
      ≡ some (handed gen s.tokens_drawn now l)
  unfolding send_handoffs respond put_lobby find_lobby find_by_key
  handoffs-find = Map.find-insert_self key (handed gen s.tokens_drawn now l) s.registry.lobbies

redeem-two :
    (gen : ℕ → ℕ) (k now later : ℕ) (l : Lobby)
    → handoff_token gen k ≢ handoff_token gen (suc k)
    → sub64 later now ≤ 60000
    → ((redeem (handoff_token gen k) later (handed gen k now l).pending_handoffs).0 ≡ some 0)
      × ((redeem (handoff_token gen (suc k)) later (handed gen k now l).pending_handoffs).0
          ≡ some 1)
unfolding redeem
redeem-two gen k now later l ne young = (first, second)
  where
    in_time : leb (sub64 later now) 60000 ≡ true
    in_time = ground arith

    miss : str_eqb (handoff_token gen k) (handoff_token gen (suc k)) ≡ false
    miss = elim (Bool-cases (str_eqb (handoff_token gen k) (handoff_token gen (suc k)))) [
      | inl e ↦ absurd (ne ((str_eqb_iff (handoff_token gen k) (handoff_token gen (suc k))).0 e))
      | inr e ↦ e
    ]

    first : (redeem (handoff_token gen k) later (handed gen k now l).pending_handoffs).0 ≡ some 0
    first = rw (str_eqb_refl (handoff_token gen k), in_time)

    second :
        (redeem (handoff_token gen (suc k)) later (handed gen k now l).pending_handoffs).0 ≡ some 1
    second = rw (miss, str_eqb_refl (handoff_token gen (suc k)), in_time)

-- When a lobby with two members or more is due for the all-ready round, every member is told, then the
-- first gets a token and the second another; and if the two differ, a join request that presents the
-- first within 60 seconds finds seat 0 and one that presents the second finds seat 1.
pub flush_all_ready-hands_off :
    (gen : ℕ → ℕ) (key : Str) (now later : ℕ) (l : Lobby) (a b : LobbyMember)
    (rest : List LobbyMember) (s : Server)
    → find_lobby key s ≡ some l
    → l.send_all_ready ≡ true
    → l.members ≡ a ∷ b ∷ rest
    → handoff_token gen s.tokens_drawn ≢ handoff_token gen (suc s.tokens_drawn)
    → sub64 later now ≤ 60000
    → ((flush_all_ready gen key now s).net
        ≡ s.net
          ++ (sends (member_conns l.members) lobby_allready
              ++ send_message a.conn (match_handoff (handoff_token gen s.tokens_drawn) l.id)
                ∷ send_message b.conn (match_handoff (handoff_token gen (suc s.tokens_drawn)) l.id)
                ∷ []))
      × ((l' : Lobby) × (find_lobby key (flush_all_ready gen key now s) ≡ some l')
          × ((redeem (handoff_token gen s.tokens_drawn) later l'.pending_handoffs).0 ≡ some 0)
          × ((redeem (handoff_token gen (suc s.tokens_drawn)) later l'.pending_handoffs).0
              ≡ some 1))
flush_all_ready-hands_off gen key now later l a b rest s e ready two ne young =
    let found = redeem-two gen s.tokens_drawn now later l ne young in
    rw (flush_all_ready-eq gen key now l a b rest s e ready two) (
      handoffs-net gen key now l a b s,
      (handed gen s.tokens_drawn now l, handoffs-find gen key now l a b s, found.0, found.1),
    )
