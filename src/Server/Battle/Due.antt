-- ===== src/Server/Battle/Due.antt =====
-- The members of a lobby that have loaded or are going to report it, over the handlers of
-- MT_BATTLE_LOADED and MT_BATTLE_ENDED in src/session/sf4e__SessionServer.cxx.
use sf4_rollback_gui.Prelude.{
  ℕ, ◌≡◌, ◌≢◌, refl, sym, subst, ◌∙◌, inl, inr, Bool, true, false, ◌&&◌, ◌||◌, List, [], ◌∷◌,
  Bool-cases, All, ◌==◌, arith,
}
use sf4_rollback_gui.Prelude.Map.{str_key}
use sf4_rollback_gui.Protocol.{battle_loaded_flag, battle_loaded_flags}
use sf4_rollback_gui.Registry.{LobbyMember}
use sf4_rollback_gui.Server.Seats.Leaver.{DistinctMembers}
use sf4_rollback_gui.Server.Battle.{mark_loaded, all_loaded, clear_loaded}

abbrev pub has_conn : ℕ → List ℕ → Bool
has_conn c [] = false
has_conn c (d ∷ ds) = c == d || has_conn c ds

-- Every member's connection is among the given ones.
abbrev pub covers : List ℕ → List LobbyMember → Bool
covers cs [] = true
covers cs (m ∷ ms) = has_conn m.conn cs && covers cs ms

-- Every member has loaded or is going to report it.
unfoldable pub due : List ℕ → List LobbyMember → Bool
due cs [] = true
due cs (m ∷ ms) = (battle_loaded_flag m.data_of.flags || has_conn m.conn cs) && due cs ms

pub due-nil : (ms : List LobbyMember) → all_loaded ms ≡ due [] ms
unfolding all_loaded due
due-nil [] = refl
due-nil (m ∷ ms) = ground (arith, due-nil ms)

pub due-other :
    (c : ℕ) (cs : List ℕ) (ms : List LobbyMember)
    → All (λ n. n.conn ≢ c) ms
    → due (c ∷ cs) ms ≡ due cs ms
unfolding due
due-other c cs [] h = refl
due-other c cs (m ∷ ms) h = ground (arith, due-other c cs ms h.1, h.0)

pub due-mark :
    (c : ℕ) (cs : List ℕ) (ms : List LobbyMember)
    → DistinctMembers ms
    → due cs (mark_loaded c ms) ≡ due (c ∷ cs) ms
unfolding due mark_loaded
due-mark c cs [] d = refl
due-mark c cs (m ∷ ms) d = elim (Bool-cases (m.conn == c)) [
  | inl e ↦
      rw (e, (battle_loaded_flags m.data_of.flags).0)
        (tail_other m.conn (eq_of e) d.0 ∙ sym (marked (battle_loaded_flag m.data_of.flags)))
  | inr e ↦ rw (e, due-mark c cs ms d.1)
]
  where
    eq_of : m.conn == c ≡ true → m.conn ≡ c
    eq_of e = ground (arith, e)

    tail_other : (x : ℕ) → x ≡ c → All (λ n. n.conn ≢ x) ms → due cs ms ≡ due (c ∷ cs) ms
    tail_other x e h = sym (due-other c cs ms (subst (λ y. All (λ n. n.conn ≢ y) ms) e h))

    marked : (b : Bool) → ((b || true) && due (c ∷ cs) ms) ≡ due (c ∷ cs) ms
    marked true = refl
    marked false = refl

pub All-mark :
    (c x : ℕ) (ms : List LobbyMember)
    → All (λ n. n.conn ≢ x) ms
    → All (λ n. n.conn ≢ x) (mark_loaded c ms)
unfolding mark_loaded
All-mark c x [] h = tt
All-mark c x (m ∷ ms) h = elim (Bool-cases (m.conn == c)) [
  | inl e ↦ rw e h
  | inr e ↦ rw e (h.0, All-mark c x ms h.1)
]

pub Distinct-mark :
    (c : ℕ) (ms : List LobbyMember) → DistinctMembers ms → DistinctMembers (mark_loaded c ms)
unfolding mark_loaded
Distinct-mark c [] d = tt
Distinct-mark c (m ∷ ms) d = elim (Bool-cases (m.conn == c)) [
  | inl e ↦ rw e d
  | inr e ↦ rw e (All-mark c m.conn ms d.0, Distinct-mark c ms d.1)
]

pub due-cleared : (cs : List ℕ) (ms : List LobbyMember) → due cs (clear_loaded ms) ≡ covers cs ms
unfolding due clear_loaded
due-cleared cs [] = refl
due-cleared cs (m ∷ ms) = rw ((battle_loaded_flags m.data_of.flags).1, due-cleared cs ms)

pub All-cleared :
    (x : ℕ) (ms : List LobbyMember)
    → All (λ n. n.conn ≢ x) ms
    → All (λ n. n.conn ≢ x) (clear_loaded ms)
unfolding clear_loaded
All-cleared x [] h = tt
All-cleared x (m ∷ ms) h = (h.0, All-cleared x ms h.1)

pub Distinct-cleared :
    (ms : List LobbyMember) → DistinctMembers ms → DistinctMembers (clear_loaded ms)
unfolding clear_loaded
Distinct-cleared [] d = tt
Distinct-cleared (m ∷ ms) d = (All-cleared m.conn ms d.0, Distinct-cleared ms d.1)
