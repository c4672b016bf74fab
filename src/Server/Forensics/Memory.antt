-- ===== src/Server/Forensics/Memory.antt =====
-- The table of pairs to relay (NoteSeatDeath and NeedsRelayFallback of
-- src/session/sf4e__SessionServer.cxx): its bound, and what a failed direct match leads to.
use sf4_rollback_gui.Prelude.{
  ℕ, ◌≤◌, ◌<◌, ◌≡◌, refl, ◌⊎◌, inl, inr, Bool, true, false, List, [], ◌∷◌, some, Str, length, ltb,
  sub64, is_empty, str_eqb_iff, arith, if◌then◌else◌,
}
use sf4_rollback_gui.Prelude.Map
use sf4_rollback_gui.Prelude.Map.{Map, str_key}
use sf4_rollback_gui.Registry.{LobbyMember}
use sf4_rollback_gui.Server.State.{Server, MatchForensic}
use sf4_rollback_gui.Server.Forensics.{
  pair_key, oldest_entry, make_room, flag_pair, close_forensic, note_seat_death, check_fallback,
  needs_relay_fallback,
}
use sf4_rollback_gui.Server.Forensics.Pairs.{pair_key_comm}

-- The key occurs in the table.
abbrev Has : Str → Map Str ℕ → Type 0
Has k [] = ⊥
Has k ((j, t) ∷ m) = (j ≡ k) ⊎ Has k m

length-erase-lt : (k : Str) (m : Map Str ℕ) → Has k m → length (Map.erase k m) < length m
unfolding Map.erase
length-erase-lt k [] h = absurd h
length-erase-lt k ((j, t) ∷ m) (inl e) = ground (arith, str_eqb_iff j k, Map.length-erase-le k m)
length-erase-lt k ((j, t) ∷ m) (inr h) =
    ground (arith, length-erase-lt k m h, Map.length-erase-le k m)

oldest_entry-Has : (best : Str × ℕ) (m : Map Str ℕ) → Has (oldest_entry best m).0 (best ∷ m)
unfolding oldest_entry
oldest_entry-Has best [] = inl refl
oldest_entry-Has best ((k, t) ∷ m) =
    widen (ltb t best.1) _ (oldest_entry-Has (if ltb t best.1 then (k, t) else best) m)
  where
    widen :
        (newer : Bool) (i : Str)
        → Has i ((if newer then (k, t) else best) ∷ m)
        → Has i (best ∷ (k, t) ∷ m)
    widen true i h = inr h
    widen false i (inl e) = inl e
    widen false i (inr h) = inr (inr h)

make_room-lt : (m : Map Str ℕ) → length m ≤ 256 → length (make_room m) < 256
unfolding make_room
make_room-lt [] h = omega arith
make_room-lt (e ∷ m) h =
    ground (arith, length-erase-lt (oldest_entry e m).0 (e ∷ m) (oldest_entry-Has e m))

flag_pair-le : (k : Str) (t : ℕ) (m : Map Str ℕ) → length m ≤ 256 → length (flag_pair k t m) ≤ 256
unfolding flag_pair
flag_pair-le k t m h = omega (arith, make_room-lt m h, Map.length-insert-le k t (make_room m))

close_forensic-le :
    (key : Str) (now : ℕ) (f : MatchForensic) (s : Server)
    → length s.relay_fallback_pairs ≤ 256
    → length (close_forensic key now f s).relay_fallback_pairs ≤ 256
unfolding close_forensic
close_forensic-le key now f s h =
    ground (arith, flag_pair-le (pair_key f.names.p1 f.names.p2) now s.relay_fallback_pairs h)

needs_relay_fallback-le :
    (ms : List LobbyMember) (now : ℕ) (s : Server)
    → length s.relay_fallback_pairs ≤ 256
    → length (needs_relay_fallback ms now s).1.relay_fallback_pairs ≤ 256
unfolding needs_relay_fallback check_fallback
needs_relay_fallback-le [] now s h = h
needs_relay_fallback-le (a ∷ []) now s h = h
needs_relay_fallback-le (a ∷ b ∷ rest) now s h =
    ground
      (arith, Map.length-erase-le (pair_key a.data_of.name b.data_of.name) s.relay_fallback_pairs)

-- A table of at most 256 pairs still holds at most 256 after the death of any connection and after any
-- lookup.
pub fallback_pairs_bound :
    (conn : ℕ) (key : Str) (ms : List LobbyMember) (now : ℕ) (s : Server)
    → length s.relay_fallback_pairs ≤ 256
    → (length (note_seat_death conn key now s).relay_fallback_pairs ≤ 256)
      × (length (needs_relay_fallback ms now s).1.relay_fallback_pairs ≤ 256)
unfolding note_seat_death
fallback_pairs_bound conn key ms now s h =
    (grind (arith, close_forensic-le), needs_relay_fallback-le ms now s h)

-- The forensic record of a match between two connections, in either seat, of which none has died.
pub record IsFresh (f : MatchForensic) (c d : ℕ) : Type 0 where
  pub conns :
      (f.game_conns ≡ record { p1 = c; p2 = d }) ⊎ (f.game_conns ≡ record { p1 = d; p2 = c })
  pub none_dead : f.game_conns_dead ≡ 0
  pub no_battle : f.saw_battle_ended ≡ false

-- One of the two has died.
abbrev one_dead : MatchForensic → MatchForensic
one_dead f = record f { game_conns_dead = 1 }

module _ (key : Str) (f : MatchForensic) (c d : ℕ) (fresh : IsFresh f c d) (s : Server)
    (named : is_empty key ≡ false) where
  first_death :
      (first : ℕ)
      → Map.find key s.match_forensics ≡ some f
      → note_seat_death c key first s
        ≡ record s { match_forensics = Map.insert key (one_dead f) s.match_forensics }
  unfolding note_seat_death
  first_death first e = ground (arith, fresh.conns, fresh.none_dead)

  second_death :
      (now : ℕ)
      → Map.find key s.match_forensics ≡ some (one_dead f)
      → note_seat_death d key now s ≡ close_forensic key now (record f { game_conns_dead = 2 }) s
  unfolding note_seat_death
  second_death now e = ground (arith, fresh.conns, fresh.none_dead)

-- The lookup for two names that were flagged, in either order.
flagged_relayed :
    (x y : Str) (now later : ℕ) (a b : LobbyMember) (rest : List LobbyMember) (m : Map Str ℕ)
    (s : Server)
    → s.relay_fallback_pairs ≡ flag_pair (pair_key x y) now m
    → ((a.data_of.name ≡ x) × (b.data_of.name ≡ y)) ⊎ ((a.data_of.name ≡ y) × (b.data_of.name ≡ x))
    → sub64 later now ≤ s.relay_fallback_ttl_ms
    → (needs_relay_fallback (a ∷ b ∷ rest) later s).0 ≡ true
unfolding needs_relay_fallback check_fallback flag_pair
flagged_relayed x y now later a b rest m s e names young =
    let same : pair_key a.data_of.name b.data_of.name ≡ pair_key x y = same_key names in
    let found : Map.find (pair_key x y) s.relay_fallback_pairs ≡ some now =
      rw e (Map.find-insert_self (pair_key x y) now (make_room m)) in
    ground (arith, same, found)
  where
    same_key :
        ((a.data_of.name ≡ x) × (b.data_of.name ≡ y))
          ⊎ ((a.data_of.name ≡ y) × (b.data_of.name ≡ x))
        → pair_key a.data_of.name b.data_of.name ≡ pair_key x y
    same_key (inl h) = cc (h.0, h.1)
    same_key (inr h) = cc (h.0, h.1, pair_key_comm x y)

-- Both die with no battle ended, the second within the window.
close_forensic-flags :
    (key : Str) (now : ℕ) (f : MatchForensic) (s : Server)
    → f.saw_battle_ended ≡ false
    → sub64 now f.second_handoff_at_ms < s.handshake_fail_window_ms
    → ((close_forensic key now f s).relay_fallback_pairs
        ≡ flag_pair (pair_key f.names.p1 f.names.p2) now s.relay_fallback_pairs)
      × ((close_forensic key now f s).relay_fallback_ttl_ms ≡ s.relay_fallback_ttl_ms)
unfolding close_forensic
close_forensic-flags key now f s e h = (ground arith, ground arith)

-- Let both game connections of a match die, one after the other in either order, with no battle ended,
-- the second within the window after the last handoff. On the server right after the second death, the
-- fallback to the relay applies to a lobby in which the two names hold the first two seats, in either
-- order, at any time at which the entry's age is within its time to live.
pub died_young_relayed :
    (key : Str) (f : MatchForensic) (c d first now later : ℕ) (a b : LobbyMember)
    (rest : List LobbyMember) (s : Server)
    → IsFresh f c d
    → is_empty key ≡ false
    → Map.find key s.match_forensics ≡ some f
    → sub64 now f.second_handoff_at_ms < s.handshake_fail_window_ms
    → ((a.data_of.name ≡ f.names.p1) × (b.data_of.name ≡ f.names.p2))
      ⊎ ((a.data_of.name ≡ f.names.p2) × (b.data_of.name ≡ f.names.p1))
    → sub64 later now ≤ s.relay_fallback_ttl_ms
    → (needs_relay_fallback
        (a ∷ b ∷ rest)
        later
        (note_seat_death d key now (note_seat_death c key first s))).0
      ≡ true
died_young_relayed key f c d first now later a b rest s fresh named found soon names young =
    let s' = record s { match_forensics = Map.insert key (one_dead f) s.match_forensics } in
    let dead = record f { game_conns_dead = 2 } in
    let flags = close_forensic-flags key now dead s' fresh.no_battle soon in
    rw
      (
        first_death key f c d fresh s named first found,
        second_death key f c d fresh s' named now (Map.find-insert_self key _ s.match_forensics),
      )
      (flagged_relayed f.names.p1 f.names.p2 now later a b rest s.relay_fallback_pairs
        (close_forensic key now dead s') flags.0 names (rw flags.1 young))
