-- ===== src/Server/Seats/Pairs.antt =====
-- Two players paired into a lobby of their own (CreatePairLobby and SeatInLobby of
-- src/session/sf4e__SessionServer.cxx).
use sf4_rollback_gui.Prelude.{
  inl, inr, str_eqb, str_eqb_iff, Bool-cases, ℕ, ◌≡◌, ◌≢◌, refl, sym, ap, ◌∙◌, true, false, [], ◌∷◌,
  some, none, Str, ◌==◌, All, arith,
}
use sf4_rollback_gui.Prelude.Map
use sf4_rollback_gui.Prelude.Map.{nat_key, str_key}
use sf4_rollback_gui.Registry.{Lobby, LobbyMember, LobbySettings, create, find_by_key}
use sf4_rollback_gui.Registry.Create.{
  create_fresh, KeyBelow, new_lobby, lobbies-create, find-next_key, key-create,
}
use sf4_rollback_gui.Server.State.{
  Server, Peer, peer_at, find_peer, put_peer, find_lobby, put_lobby,
}
use sf4_rollback_gui.Server.Seats.{seated_peer, add_member, seat_in_lobby, create_pair_lobby}

-- The seat that a peer takes.
abbrev pub member_for : ℕ → Peer → LobbyMember
member_for conn p = record { data_of = p.data_of; conn = conn }

module _ (conn : ℕ) (key : Str) (l : Lobby) (p : Peer) (s : Server)
    (there : find_lobby key s ≡ some l) (known : find_peer conn s ≡ some p) where
  known_at : peer_at conn s ≡ p
  unfolding peer_at
  known_at = rw (peer_at, known)

  seat_in_lobby-eq :
      seat_in_lobby conn key s
      ≡ put_peer conn (seated_peer l.id.key p) (put_lobby key (add_member conn p l) s)
  unfolding seat_in_lobby
  seat_in_lobby-eq = rw (seat_in_lobby, there, known_at)

  seat-find_lobby : find_lobby key (seat_in_lobby conn key s) ≡ some (add_member conn p l)
  unfolding find_lobby find_by_key put_peer put_lobby
  seat-find_lobby =
      ap (find_lobby key) seat_in_lobby-eq
      ∙ Map.find-insert_self key (add_member conn p l) s.registry.lobbies

  seat-find_lobby_other :
      (other : Str) → key ≢ other → find_lobby other (seat_in_lobby conn key s) ≡ find_lobby other s
  unfolding find_lobby find_by_key put_peer put_lobby
  seat-find_lobby_other other ne =
      ap (find_lobby other) seat_in_lobby-eq
      ∙ (Map.find-insert key other (add_member conn p l) s.registry.lobbies ∙ rw differs)
    where
      differs : str_eqb key other ≡ false
      differs = elim (Bool-cases (str_eqb key other)) [
        | inl e ↦ absurd (ne ((str_eqb_iff key other).0 e))
        | inr e ↦ e
      ]

  seat-find_peer : find_peer conn (seat_in_lobby conn key s) ≡ some (seated_peer l.id.key p)
  unfolding find_peer put_peer put_lobby
  seat-find_peer =
      ap (find_peer conn) seat_in_lobby-eq
      ∙ Map.find-insert_self conn (seated_peer l.id.key p) s.peers

  seat-find_peer_other :
      (other : ℕ) → conn ≢ other → find_peer other (seat_in_lobby conn key s) ≡ find_peer other s
  unfolding find_peer put_peer put_lobby
  seat-find_peer_other other ne =
      ap (find_peer other) seat_in_lobby-eq
      ∙ (Map.find-insert conn other (seated_peer l.id.key p) s.peers ∙ rw differs)
    where
      differs : conn == other ≡ false
      differs = ground (arith, ne)

-- The settings of a lobby for a pair.
abbrev pub pair_settings : Str → Server → LobbySettings
pair_settings name s = record {
  display_name = name;
  edition_select = s.match_edition_select;
  round_count = s.match_round_count;
  round_time = s.match_round_time;
  capacity = 2;
  persistent = false;
  unlisted = true;
}

-- The lobby that a pair gets.
abbrev pub pair_lobby : Str → ℕ → ℕ → Peer → Peer → Server → Lobby
pair_lobby name a b p q s = record (new_lobby (pair_settings name s) s.registry) {
  members = member_for a p ∷ member_for b q ∷ [];
  dirty = true;
}

module _ (name : Str) (a b : ℕ) (p q : Peer) (s : Server)
    (keys : All (KeyBelow s.registry.next_key) s.registry.lobbies) (ne : a ≢ b)
    (pa : find_peer a s ≡ some p) (qb : find_peer b s ≡ some q) where
  abbrev key : Str
  key = (create (pair_settings name s) s.registry).0

  -- The server with the new lobby, and then with the first player in it.
  abbrev made : Server
  made = record s { registry = (create (pair_settings name s) s.registry).1 }

  abbrev half : Server
  half = seat_in_lobby a key made

  abbrev fresh : Lobby
  fresh = new_lobby (pair_settings name s) s.registry

  made-find_lobby : find_lobby key made ≡ some fresh
  unfolding find_lobby find_by_key
  made-find_lobby =
      rw
        (
          key-create (pair_settings name s) s.registry,
          lobbies-create (pair_settings name s) s.registry keys,
        )
        (Map.find-insert_self _ _ _)

  made-find_peer : (conn : ℕ) → find_peer conn made ≡ find_peer conn s
  unfolding find_peer
  made-find_peer conn = refl

  half-find_lobby : find_lobby key half ≡ some (add_member a p fresh)
  half-find_lobby = seat-find_lobby a key fresh p made made-find_lobby (made-find_peer a ∙ pa)

  half-find_peer : find_peer b half ≡ some q
  half-find_peer =
      seat-find_peer_other a key fresh p made made-find_lobby (made-find_peer a ∙ pa) b ne
      ∙ (made-find_peer b ∙ qb)

  pair-find_lobby : find_lobby key (seat_in_lobby b key half) ≡ some (pair_lobby name a b p q s)
  unfolding add_member
  pair-find_lobby =
      seat-find_lobby b key (add_member a p fresh) q half half-find_lobby half-find_peer

  pair-find_first : find_peer a (seat_in_lobby b key half) ≡ some (seated_peer fresh.id.key p)
  pair-find_first =
      seat-find_peer_other b key (add_member a p fresh) q half half-find_lobby half-find_peer a
        (λ e. ne (sym e))
      ∙ seat-find_peer a key fresh p made made-find_lobby (made-find_peer a ∙ pa)

  pair-find_second : find_peer b (seat_in_lobby b key half) ≡ some (seated_peer fresh.id.key q)
  unfolding add_member
  pair-find_second =
      seat-find_peer b key (add_member a p fresh) q half half-find_lobby half-find_peer

  -- Lobbies and peers besides those of the pair are as they were.
  pub pair-find_lobby_other :
      (other : Str) → key ≢ other → find_lobby other (seat_in_lobby b key half) ≡ find_lobby other s
  unfolding find_lobby
  pair-find_lobby_other other d =
      seat-find_lobby_other b key (add_member a p fresh) q half half-find_lobby half-find_peer other
        d
      ∙ seat-find_lobby_other a key fresh p made made-find_lobby (made-find_peer a ∙ pa) other d
      ∙ (create_fresh (pair_settings name s) s.registry other keys (λ e. d (sym e))).2

  pub pair-find_peer_other :
      (other : ℕ)
      → a ≢ other
      → b ≢ other
      → find_peer other (seat_in_lobby b key half) ≡ find_peer other s
  pair-find_peer_other other da db =
      seat-find_peer_other b key (add_member a p fresh) q half half-find_lobby half-find_peer other
        db
      ∙ seat-find_peer_other a key fresh p made made-find_lobby (made-find_peer a ∙ pa) other da
      ∙ made-find_peer other

-- While the keys in use are numbers below the next one, two different registered connections are paired
-- into a lobby under a key that no lobby had: unlisted, for two, with the first as player one and the
-- second as player two. Both are seated there, and no longer look for a match or have a challenge out.
pub create_pair_lobby_lem :
    (name : Str) (a b : ℕ) (p q : Peer) (s : Server)
    → All (KeyBelow s.registry.next_key) s.registry.lobbies
    → a ≢ b
    → find_peer a s ≡ some p
    → find_peer b s ≡ some q
    → (find_lobby (create_pair_lobby name a b s).0 s ≡ none)
      × (find_lobby (create_pair_lobby name a b s).0 (create_pair_lobby name a b s).1
          ≡ some (pair_lobby name a b p q s))
      × (find_peer a (create_pair_lobby name a b s).1
          ≡ some (seated_peer (create_pair_lobby name a b s).0 p))
      × (find_peer b (create_pair_lobby name a b s).1
          ≡ some (seated_peer (create_pair_lobby name a b s).0 q))
unfolding create_pair_lobby create find_lobby find_by_key
create_pair_lobby_lem name a b p q s keys ne pa qb = (
  find-next_key s.registry.next_key s.registry.lobbies keys,
  pair-find_lobby name a b p q s keys ne pa qb,
  pair-find_first name a b p q s keys ne pa qb,
  pair-find_second name a b p q s keys ne pa qb,
)
