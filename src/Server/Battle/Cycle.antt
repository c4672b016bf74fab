-- ===== src/Server/Battle/Cycle.antt =====
-- The ready / loaded / ended cycle of src/session/sf4e__SessionServer.cxx, over the handlers of
-- MT_LOBBY_READY, MT_BATTLE_LOADED and MT_BATTLE_ENDED.
use sf4_rollback_gui.Prelude.{
  ℕ, zero, suc, ◌-◌, ◌<◌, ◌≡◌, ◌≢◌, refl, sym, subst, ◌∙◌, inl, inr, Bool, true, false, not, ◌||◌,
  List, [], ◌∷◌, is_minus_one, Bool-cases, All, ◌==◌, arith,
}
use sf4_rollback_gui.Prelude.{ap, none, some, Option-cases, Str, if◌then◌else◌, ◌%◌, ◌^◌}
use sf4_rollback_gui.Prelude.Map
use sf4_rollback_gui.Prelude.Map.{str_key}
use sf4_rollback_gui.Protocol.{Packet}
use sf4_rollback_gui.Registry.{find_member, find_by_key}
use sf4_rollback_gui.Server.State.{Server, Peer, find_lobby, put_lobby}
use sf4_rollback_gui.Server.Battle.{handle_battle_loaded, handle_battle_ended, saw_ended}
use sf4_rollback_gui.Protocol.{side, is_all_ready}
use sf4_rollback_gui.Registry.{Lobby, LobbyMember, clear_handoffs}
use sf4_rollback_gui.Server.Seats.Leaver.{DistinctMembers}
use sf4_rollback_gui.Server.Battle.{mark_loaded, all_loaded, ready_lobby, clear_loaded, ended_lobby}
use sf4_rollback_gui.Server.Battle.Due.{
  covers, due, due-nil, due-other, due-mark, Distinct-mark, due-cleared, Distinct-cleared,
}

-- A side's ready message asks for the all-ready round exactly when the other side is ready already, or
-- the round is due anyhow.
pub ready_lobby-fires :
    (i number : ℕ) (l : Lobby)
    → i < 2
    → (ready_lobby i number l).send_all_ready
      ≡ (l.send_all_ready || not (is_minus_one (side (1 - i) l.match_data.ready_message_num)))
unfolding ready_lobby is_all_ready
ready_lobby-fires zero number l h = refl
ready_lobby-fires (suc zero) number l h = ground (arith)
ready_lobby-fires (suc (suc i)) number l h = absurd (omega arith)

abbrev pub is_member : ℕ → List LobbyMember → Bool
is_member c [] = false
is_member c (m ∷ ms) = m.conn == c || is_member c ms

-- One of the connections is a member's.
abbrev pub any_member : List ℕ → List LobbyMember → Bool
any_member [] ms = false
any_member (c ∷ cs) ms = is_member c ms || any_member cs ms

find_member-none :
    (c : ℕ) (ms : List LobbyMember) → find_member c ms ≡ none → is_member c ms ≡ false
unfolding find_member
find_member-none c [] e = refl
find_member-none c (m ∷ ms) e = ground (arith, find_member-none c ms)

find_member-some :
    (c : ℕ) (ms : List LobbyMember) (x : LobbyMember)
    → find_member c ms ≡ some x
    → is_member c ms ≡ true
unfolding find_member
find_member-some c [] x e = absurd (cc)
find_member-some c (m ∷ ms) x e = ground (arith, find_member-some c ms x)

is_member-All : (c : ℕ) (ms : List LobbyMember) → is_member c ms ≡ false → All (λ n. n.conn ≢ c) ms
is_member-All c [] e = tt
is_member-All c (m ∷ ms) e =
    ((λ same. absurd (ground (arith, e, same))), is_member-All c ms (ground (arith, e)))

is_member-cleared : (c : ℕ) (ms : List LobbyMember) → is_member c (clear_loaded ms) ≡ is_member c ms
unfolding clear_loaded
is_member-cleared c [] = refl
is_member-cleared c (m ∷ ms) = ap (λ b. m.conn == c || b) (is_member-cleared c ms)

any_member-cleared :
    (cs : List ℕ) (ms : List LobbyMember) → any_member cs (clear_loaded ms) ≡ any_member cs ms
any_member-cleared [] ms = refl
any_member-cleared (c ∷ cs) ms = rw (is_member-cleared c ms, any_member-cleared cs ms) refl

-- Reports of others say nothing.
due-strangers :
    (cs : List ℕ) (ms : List LobbyMember) → any_member cs ms ≡ false → due cs ms ≡ due [] ms
due-strangers [] ms e = refl
due-strangers (c ∷ cs) ms e =
    due-other c cs ms (is_member-All c ms (ground (arith, e)))
    ∙ due-strangers cs ms (ground (arith, e))

-- The lobby after a member's report.
abbrev loaded_lobby : ℕ → Lobby → Lobby
loaded_lobby conn l =
    let marked = mark_loaded conn l.members in
    record l { members = marked; send_battle_synced = all_loaded marked; dirty = true }

-- What a report does to a lobby.
report_lobby : ℕ → Lobby → Lobby
report_lobby c l = elim (find_member c l.members) [ none ↦ l | some m ↦ loaded_lobby c l ]

reported_lobby : List ℕ → Lobby → Lobby
reported_lobby [] l = l
reported_lobby (c ∷ cs) l = reported_lobby cs (report_lobby c l)

report-none : (c : ℕ) (l : Lobby) → find_member c l.members ≡ none → report_lobby c l ≡ l
unfolding report_lobby
report-none c l e = rw (report_lobby, e) refl

report-some :
    (c : ℕ) (l : Lobby) (m : LobbyMember)
    → find_member c l.members ≡ some m
    → report_lobby c l ≡ loaded_lobby c l
unfolding report_lobby
report-some c l m e = rw (report_lobby, e) refl

synced-due :
    (cs : List ℕ) (l : Lobby)
    → DistinctMembers l.members
    → (reported_lobby cs l).send_battle_synced
      ≡ (if any_member cs l.members then due cs l.members else l.send_battle_synced)
unfolding reported_lobby
synced-due [] l d = refl
synced-due (c ∷ cs) l d = elim (Option-cases (find_member c l.members)) [
  | inl e ↦
      ap (λ x. (reported_lobby cs x).send_battle_synced) (report-none c l e)
      ∙ rw
          (
            find_member-none c l.members e,
            due-other c cs l.members (is_member-All c l.members (find_member-none c l.members e)),
          )
          (synced-due cs l d)
  | inr (m, e) ↦
      ap (λ x. (reported_lobby cs x).send_battle_synced) (report-some c l m e)
      ∙ rw (find_member-some c l.members m e) (
          synced-due cs (loaded_lobby c l) (Distinct-mark c l.members d)
          ∙ either (mark_loaded c l.members)
          ∙ due-mark c cs l.members d)
]
  where
    either :
        (ms : List LobbyMember)
        → (if any_member cs ms then due cs ms else all_loaded ms) ≡ due cs ms
    either ms = elim (Bool-cases (any_member cs ms)) [
      | inl some_of ↦ rw some_of refl
      | inr none_of ↦ rw none_of (due-nil ms ∙ sym (due-strangers cs ms none_of))
    ]

-- The server handles reports of a loaded battle, each with the peer of its sender.
abbrev pub reports : List (Packet × Peer) → Server → Server
reports [] s = s
reports ((p, peer) ∷ rs) s = reports rs (handle_battle_loaded p peer s)

abbrev pub senders : List (Packet × Peer) → List ℕ
senders [] = []
senders ((p, peer) ∷ rs) = p.conn ∷ senders rs

report-lobby :
    (p : Packet) (peer : Peer) (l : Lobby) (s : Server)
    → find_lobby peer.lobby_key s ≡ some l
    → find_lobby peer.lobby_key (handle_battle_loaded p peer s) ≡ some (report_lobby p.conn l)
unfolding handle_battle_loaded report_lobby find_lobby find_by_key put_lobby
report-lobby p peer l s e = elim (Option-cases (find_member p.conn l.members)) [
  | inl f ↦ rw (handle_battle_loaded, e, report_lobby, f) e
  | inr (m, f) ↦
      rw (handle_battle_loaded, e, report_lobby, f)
        (Map.find-insert_self peer.lobby_key (loaded_lobby p.conn l) s.registry.lobbies)
]

reports-lobby :
    (key : Str) (rs : List (Packet × Peer)) (l : Lobby) (s : Server)
    → All (λ r. r.1.lobby_key ≡ key) rs
    → find_lobby key s ≡ some l
    → find_lobby key (reports rs s) ≡ some (reported_lobby (senders rs) l)
unfolding reported_lobby
reports-lobby key [] l s h e = e
reports-lobby key ((p, peer) ∷ rs) l s h e =
    reports-lobby key rs (report_lobby p.conn l) (handle_battle_loaded p peer s) h.1 (
      subst (λ k. find_lobby k (handle_battle_loaded p peer s) ≡ some (report_lobby p.conn l)) h.0
        (report-lobby p peer l s (subst (λ k. find_lobby k s ≡ some l) (sym h.0) e)))

ended-lobby :
    (gen : ℕ → ℕ) (p : Packet) (peer : Peer) (l : Lobby) (s : Server)
    → find_lobby peer.lobby_key s ≡ some l
    → find_lobby peer.lobby_key (handle_battle_ended gen p peer s)
      ≡ some (ended_lobby (gen (saw_ended l.id.key s).seeds_drawn % 2 ^ 32) l)
unfolding handle_battle_ended find_lobby find_by_key put_lobby
ended-lobby gen p peer l s e =
    rw (handle_battle_ended, e)
      (Map.find-insert_self peer.lobby_key
        (ended_lobby (gen (saw_ended l.id.key s).seeds_drawn % 2 ^ 32) l)
        (saw_ended l.id.key s).registry.lobbies)

-- The server handles the end of a battle in a lobby whose members have different connections, and then
-- reports of a loaded battle by peers that are in that lobby, in any order and however often. If a
-- member is among those who reported, the synced message is due exactly when all members are; if none
-- is, it is due exactly when it was before.
pub rematch_synced :
    (gen : ℕ → ℕ) (p : Packet) (peer : Peer) (rs : List (Packet × Peer)) (l : Lobby) (s : Server)
    → find_lobby peer.lobby_key s ≡ some l
    → DistinctMembers l.members
    → All (λ r. r.1.lobby_key ≡ peer.lobby_key) rs
    → (l' : Lobby) × (find_lobby peer.lobby_key (reports rs (handle_battle_ended gen p peer s))
        ≡ some l')
      × (l'.send_battle_synced ≡ (
          if any_member (senders rs) l.members
          then covers (senders rs) l.members
          else l.send_battle_synced))
unfolding ended_lobby clear_handoffs
rematch_synced gen p peer rs l s there d h =
    let ended = ended_lobby (gen (saw_ended l.id.key s).seeds_drawn % 2 ^ 32) l in
    (
      reported_lobby (senders rs) ended,
      reports-lobby peer.lobby_key rs ended (handle_battle_ended gen p peer s) h
          (ended-lobby gen p peer l s there),
      synced-due (senders rs) ended (Distinct-cleared l.members d)
          ∙ rw (any_member-cleared (senders rs) l.members, due-cleared (senders rs) l.members) refl,
    )
