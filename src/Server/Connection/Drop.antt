-- ===== src/Server/Connection/Drop.antt =====
-- What the end of a connection leaves behind (OnSteamNetConnectionStatusChanged of
-- src/session/sf4e__SessionServer.cxx).
use sf4_rollback_gui.Prelude.{
  ℕ, ◌≡◌, ◌≢◌, refl, ap, ◌∙◌, inl, inr, true, false, not, ◌&&◌, [], ◌∷◌, none, some, Option-cases,
  Bool-cases, Str, is_empty, str_eqb, ◌==◌, arith,
}
use sf4_rollback_gui.Prelude.Map
use sf4_rollback_gui.Prelude.Map.{Map, nat_key, str_key}
use sf4_rollback_gui.Protocol.{offline}
use sf4_rollback_gui.Registry.{Lobby}
use sf4_rollback_gui.Server.State.{
  Server, Peer, MatchForensic, find_peer, put_peer, find_lobby, put_lobby, respond,
  respond_challenge_result, net_call,
}
use sf4_rollback_gui.Server.Seats.{remove_from_lobby, vacate}
use sf4_rollback_gui.Server.Forensics.{note_seat_death, close_forensic}
use sf4_rollback_gui.Server.Challenge.{without_challenge}
use sf4_rollback_gui.Server.Connection.{void_challenges, tell_challengers, forget, drop_connection}

-- Two servers with the same greetings, where who is registered in the first is in the second.
record Keeps (s s' : Server) : Type 0 where
  cids : s'.cid_map ≡ s.cid_map
  stays : (j : ℕ) (p : Peer) → find_peer j s ≡ some p → (q : Peer) × (find_peer j s' ≡ some q)

Keeps-refl : (s : Server) → Keeps s s
Keeps-refl s = record { cids = refl; stays = λ j p e. (p, e) }

Keeps-trans : {s t u : Server} → Keeps s t → Keeps t u → Keeps s u
Keeps-trans h k = record {
  cids = k.cids ∙ h.cids;
  stays = λ j p e. let (q, f) = h.stays j p e in k.stays j q f;
}

Keeps-same : (s s' : Server) → s'.cid_map ≡ s.cid_map → s'.peers ≡ s.peers → Keeps s s'
unfolding find_peer
Keeps-same s s' c e = record { cids = c; stays = λ j p f. (p, ap (λ m. Map.find j m) e ∙ f) }

Keeps-put : (conn : ℕ) (p : Peer) (s : Server) → Keeps s (put_peer conn p s)
unfolding find_peer put_peer
Keeps-put conn p s = record { cids = refl; stays = λ j q e. put_find j q e }
  where
    put_find :
        (j : ℕ) (q : Peer)
        → Map.find j s.peers ≡ some q
        → (r : Peer) × (Map.find j (Map.insert conn p s.peers) ≡ some r)
    put_find j q e = elim (Bool-cases (conn == j)) [
      | inl same ↦ (p, Map.find-insert conn j p s.peers ∙ rw same)
      | inr other ↦ (q, Map.find-insert conn j p s.peers ∙ rw other e)
    ]

Keeps-void :
    (leaver : ℕ) (name : Str) (es : Map ℕ Peer) (s : Server)
    → Keeps s (void_challenges leaver name es s)
unfolding void_challenges respond_challenge_result respond
Keeps-void leaver name [] s = Keeps-refl s
Keeps-void leaver name ((conn, p) ∷ es) s =
    elim (Bool-cases (not (conn == leaver) && str_eqb p.challenge_target name)) [
      | inl hit ↦ rw hit (
          Keeps-trans
            (Keeps-trans (Keeps-same s (respond_challenge_result conn name offline s) refl refl)
              (Keeps-put conn (without_challenge p) (respond_challenge_result conn name offline s)))
            (Keeps-void leaver name es
              (put_peer conn (without_challenge p) (respond_challenge_result conn name offline s))))
      | inr miss ↦ rw miss (Keeps-void leaver name es s)
    ]

close_forensic-keeps :
    (key : Str) (now : ℕ) (f : MatchForensic) (s : Server)
    → ((close_forensic key now f s).peers ≡ s.peers)
      × ((close_forensic key now f s).cid_map ≡ s.cid_map)
unfolding close_forensic
close_forensic-keeps key now f s = (ground arith, ground arith)

note_seat_death-keeps :
    (conn : ℕ) (key : Str) (now : ℕ) (s : Server)
    → ((note_seat_death conn key now s).peers ≡ s.peers)
      × ((note_seat_death conn key now s).cid_map ≡ s.cid_map)
unfolding note_seat_death
note_seat_death-keeps conn key now s =
    (grind (arith, close_forensic-keeps), grind (arith, close_forensic-keeps))

vacate-keeps :
    (conn : ℕ) (key : Str) (l : Lobby) (s : Server)
    → ((vacate conn key l s).peers ≡ s.peers) × ((vacate conn key l s).cid_map ≡ s.cid_map)
unfolding vacate put_lobby
vacate-keeps conn key l s = (ground arith, ground arith)

Keeps-tell : (conn now : ℕ) (s : Server) → Keeps s (tell_challengers conn now s)
unfolding tell_challengers
Keeps-tell conn now s = elim (Option-cases (find_peer conn s)) [
  | inl e ↦ rw (tell_challengers, e) (Keeps-refl s)
  | inr (p, e) ↦
      let s' = void_challenges conn p.data_of.name s.peers s in
      let kept = note_seat_death-keeps conn p.lobby_key now s' in
      rw (tell_challengers, e)
        (Keeps-trans (Keeps-void conn p.data_of.name s.peers s)
          (Keeps-same s' (note_seat_death conn p.lobby_key now s') kept.1 kept.0))
]

Keeps-remove : (conn : ℕ) (s : Server) → Keeps s (remove_from_lobby conn s)
unfolding remove_from_lobby
Keeps-remove conn s = elim (Option-cases (find_peer conn s)) [
  | inl e ↦ rw (remove_from_lobby, e) (Keeps-refl s)
  | inr (p, e) ↦ elim (Bool-cases (is_empty p.lobby_key)) [
    | inl lounge ↦ rw (remove_from_lobby, e, lounge) (Keeps-refl s)
    | inr seated ↦
        let freed = put_peer conn (record p { lobby_key = [] }) s in
        let put = Keeps-put conn (record p { lobby_key = [] }) s in
        elim (Option-cases (find_lobby p.lobby_key freed)) [
          | inl gone ↦ rw (remove_from_lobby, e, seated, gone) put
          | inr (l, there) ↦
              let kept = vacate-keeps conn p.lobby_key l freed in
              rw (remove_from_lobby, e, seated, there)
                (Keeps-trans put (Keeps-same freed (vacate conn p.lobby_key l freed) kept.1 kept.0))
        ]
  ]
]

here : (n : ℕ) → n == n ≡ true
here n = ground arith

elsewhere : (m n : ℕ) → m ≢ n → m == n ≡ false
elsewhere m n ne = ground (arith, ne)

-- When an open connection ends, the server knows neither its greeting nor its registration any more.
-- Another connection that was registered is registered still, and has the greeting it had.
pub drop_connection-forgets :
    (conn now j : ℕ) (p : Peer) (s : Server)
    → conn ≢ j
    → find_peer j s ≡ some p
    → (find_peer conn (drop_connection conn now s) ≡ none)
      × (Map.find conn (drop_connection conn now s).cid_map ≡ none)
      × ((q : Peer) × (find_peer j (drop_connection conn now s) ≡ some q))
      × (Map.find j (drop_connection conn now s).cid_map ≡ Map.find j s.cid_map)
unfolding drop_connection forget net_call find_peer
drop_connection-forgets conn now j p s ne e =
    let left = remove_from_lobby conn (tell_challengers conn now s) in
    let kept =
      Keeps-trans (Keeps-tell conn now s) (Keeps-remove conn (tell_challengers conn now s)) in
    let (q, f) = kept.stays j p e in
    (
      Map.find-erase conn conn left.peers ∙ rw (here conn),
      Map.find-erase conn conn left.cid_map ∙ rw (here conn),
      (q, Map.find-erase conn j left.peers ∙ rw (elsewhere conn j ne) f),
      Map.find-erase conn j left.cid_map
          ∙ rw (elsewhere conn j ne) (ap (λ m. Map.find j m) kept.cids),
    )
