-- ===== src/Server/Lobbies/Presence.antt =====
-- The statuses of a presence list (MT_PRESENCE_LIST in src/session/sf4e__SessionServer.cxx).
use sf4_rollback_gui.Prelude.{
  ℕ, zero, suc, ◌≤◌, ◌≡◌, refl, sym, subst, ap, false, ◌∙◌, ◌⊎◌, inl, inr, [], ◌∷◌, some,
  Option-cases, Bool-cases, Str, str_eqb, str_eqb_iff, ltb, get_elem?, arith,
}
use sf4_rollback_gui.Prelude.Map
use sf4_rollback_gui.Prelude.Map.{Map, str_key}
use sf4_rollback_gui.Protocol.{PresenceStatus}
use sf4_rollback_gui.Server.State.{Server, Peer}
use sf4_rollback_gui.Server.Lobbies.{peer_status, rank, fold_status, statuses}

-- The name is listed with that status or a higher one.
abbrev pub AtLeast : PresenceStatus → Str → Map Str PresenceStatus → Type 0
AtLeast st name m =
    (shown : PresenceStatus) × (Map.find name m ≡ some shown) × (rank st ≤ rank shown)

-- Some entry has that name and that status.
abbrev pub Held : Server → Str → PresenceStatus → Map ℕ Peer → Type 0
Held s name st es =
    (i : ℕ) × (e : ℕ × Peer) × (get_elem? es i ≡ some e)
    × (e.1.data_of.name ≡ name)
    × (peer_status s e.1 ≡ st)

fold_status-own :
    (name : Str) (st : PresenceStatus) (m : Map Str PresenceStatus)
    → AtLeast st name (fold_status name st m)
unfolding fold_status
fold_status-own name st m = elim (Option-cases (Map.find name m)) [
  | inl new ↦ rw (fold_status, new) (st, Map.find-insert_self name st m, omega arith)
  | inr (old, e) ↦ elim (Bool-cases (ltb (rank old) (rank st))) [
    | inl higher ↦ rw (fold_status, e, higher) (st, Map.find-insert_self name st m, omega arith)
    | inr lower ↦ rw (fold_status, e, lower) (old, e, ground (arith, lower))
  ]
]

fold_status-old :
    (name : Str) (st old : PresenceStatus) (m : Map Str PresenceStatus)
    → Map.find name m ≡ some old
    → AtLeast old name (fold_status name st m)
unfolding fold_status
fold_status-old name st old m e = elim (Bool-cases (ltb (rank old) (rank st))) [
  | inl higher ↦
      rw (fold_status, e, higher) (st, Map.find-insert_self name st m, ground (arith, higher))
  | inr lower ↦ rw (fold_status, e, lower) (old, e, omega arith)
]

fold_status-other :
    (name n : Str) (st : PresenceStatus) (m : Map Str PresenceStatus)
    → str_eqb name n ≡ false
    → Map.find n (fold_status name st m) ≡ Map.find n m
unfolding fold_status
fold_status-other name n st m ne = elim (Option-cases (Map.find name m)) [
  | inl new ↦ rw (fold_status, new) (Map.find-insert name n st m ∙ rw ne)
  | inr (old, e) ↦ elim (Bool-cases (ltb (rank old) (rank st))) [
    | inl higher ↦ rw (fold_status, e, higher) (Map.find-insert name n st m ∙ rw ne)
    | inr lower ↦ rw (fold_status, e, lower)
  ]
]

fold_status-cases :
    (name : Str) (st : PresenceStatus) (m : Map Str PresenceStatus)
    → (fold_status name st m ≡ Map.insert name st m) ⊎ (fold_status name st m ≡ m)
unfolding fold_status
fold_status-cases name st m = elim (Option-cases (Map.find name m)) [
  | inl new ↦ inl (rw (fold_status, new))
  | inr (old, e) ↦ elim (Bool-cases (ltb (rank old) (rank st))) [
    | inl higher ↦ inl (rw (fold_status, e, higher))
    | inr lower ↦ inr (rw (fold_status, e, lower))
  ]
]

some_inj : {a b : PresenceStatus} → some a ≡ some b → a ≡ b
some_inj q = cc

-- What is listed after the fold is the new status or was listed before.
fold_status-from :
    (name : Str) (st shown : PresenceStatus) (m : Map Str PresenceStatus)
    → Map.find name (fold_status name st m) ≡ some shown
    → (st ≡ shown) ⊎ (Map.find name m ≡ some shown)
fold_status-from name st shown m f = elim (fold_status-cases name st m) [
  | inl put ↦
      inl
        (some_inj (sym (Map.find-insert_self name st m) ∙ sym (ap (λ x. Map.find name x) put) ∙ f))
  | inr same ↦ inr (sym (ap (λ x. Map.find name x) same) ∙ f)
]

fold_status-keeps :
    (name n : Str) (st old : PresenceStatus) (m : Map Str PresenceStatus)
    → Map.find n m ≡ some old
    → AtLeast old n (fold_status name st m)
fold_status-keeps name n st old m e = elim (Bool-cases (str_eqb name n)) [
  | inl same ↦
      let q = (str_eqb_iff name n).0 same in
      subst (λ x. AtLeast old x (fold_status name st m)) q
        (fold_status-old name st old m (subst (λ x. Map.find x m ≡ some old) (sym q) e))
  | inr other ↦ (old, fold_status-other name n st m other ∙ e, omega arith)
]

statuses-keeps :
    (s : Server) (es : Map ℕ Peer) (n : Str) (old : PresenceStatus) (m : Map Str PresenceStatus)
    → Map.find n m ≡ some old
    → AtLeast old n (statuses s es m)
unfolding statuses
statuses-keeps s [] n old m e = (old, e, omega arith)
statuses-keeps s ((conn, p) ∷ es) n old m e =
    let (mid, f, low) = fold_status-keeps p.data_of.name n (peer_status s p) old m e in
    let (shown, g, high) =
      statuses-keeps s es n mid (fold_status p.data_of.name (peer_status s p) m) f in
    (shown, g, omega arith)

-- When the statuses of any entries of peers are folded into any table, each entry's name is in the
-- result with that peer's status or a higher one.
pub statuses-AtLeast :
    (s : Server) (es : Map ℕ Peer) (m : Map Str PresenceStatus) (i : ℕ) (e : ℕ × Peer)
    → get_elem? es i ≡ some e
    → AtLeast (peer_status s e.1) e.1.data_of.name (statuses s es m)
unfolding statuses
statuses-AtLeast s [] m i e at = absurd (cc)
statuses-AtLeast s ((conn, p) ∷ es) m zero e at =
    let (mid, f, low) = fold_status-own p.data_of.name (peer_status s p) m in
    let (shown, g, high) =
      statuses-keeps s es p.data_of.name mid (fold_status p.data_of.name (peer_status s p) m) f in
    subst
      (λ x.
        AtLeast (peer_status s x.1) x.1.data_of.name
          (statuses s es (fold_status p.data_of.name (peer_status s p) m)))
      (head_eq at) (shown, g, omega arith)
  where
    head_eq : some (conn, p) ≡ some e → ◌≡◌ {A = ℕ × Peer} (conn, p) e
    head_eq q = cc
statuses-AtLeast s ((conn, p) ∷ es) m (suc i) e at =
    statuses-AtLeast s es (fold_status p.data_of.name (peer_status s p) m) i e at

Held-suc :
    (s : Server) (n : Str) (st : PresenceStatus) (e : ℕ × Peer) (es : Map ℕ Peer)
    → Held s n st es
    → Held s n st (e ∷ es)
Held-suc s n st e es (i, x, at, name, status) = (suc i, x, at, name, status)

statuses-from :
    (s : Server) (es : Map ℕ Peer) (m : Map Str PresenceStatus) (n : Str) (shown : PresenceStatus)
    → Map.find n (statuses s es m) ≡ some shown
    → (Map.find n m ≡ some shown) ⊎ Held s n shown es
unfolding statuses
statuses-from s [] m n shown f = inl f
statuses-from s ((conn, p) ∷ es) m n shown f =
    elim (statuses-from s es (fold_status p.data_of.name (peer_status s p) m) n shown f) [
      | inr held ↦ inr (Held-suc s n shown (conn, p) es held)
      | inl g ↦ elim (Bool-cases (str_eqb p.data_of.name n)) [
        | inr other ↦ inl (sym (fold_status-other p.data_of.name n (peer_status s p) m other) ∙ g)
        | inl same ↦
            let q = (str_eqb_iff p.data_of.name n).0 same in
            own q (
              fold_status-from p.data_of.name (peer_status s p) shown m (
                subst
                  (λ x. Map.find x (fold_status p.data_of.name (peer_status s p) m) ≡ some shown)
                  (sym q) g))
      ]
    ]
  where
    own :
        p.data_of.name ≡ n
        → (peer_status s p ≡ shown) ⊎ (Map.find p.data_of.name m ≡ some shown)
        → (Map.find n m ≡ some shown) ⊎ Held s n shown ((conn, p) ∷ es)
    own q (inl st) = inr (0, (conn, p), refl, q, st)
    own q (inr old) = inl (subst (λ x. Map.find x m ≡ some shown) q old)

-- The status under a name in the table behind a presence list is the status of some registered peer of
-- that name.
pub statuses-Held :
    (s : Server) (n : Str) (shown : PresenceStatus)
    → Map.find n (statuses s s.peers []) ≡ some shown
    → Held s n shown s.peers
unfolding Map.find
statuses-Held s n shown f = elim (statuses-from s s.peers [] n shown f) [
  | inl e ↦ absurd (cc)
  | inr held ↦ held
]
