-- ===== src/Server/Join/Handoff.antt =====
-- The takeover of a seat by token (src/session/sf4e__SessionServer.cxx, MT_SESSION_JOINREQ).
use sf4_rollback_gui.Prelude.{
  ℕ, suc, ◌≤◌, ◌≡◌, ◌≢◌, refl, ap, subst, inl, inr, List, [], ◌∷◌, none, some, Bool-cases, Str,
  sub64, All, get_elem?, str_eqb, str_eqb_iff, arith,
}
use sf4_rollback_gui.Registry.{PendingHandoff}
use sf4_rollback_gui.Server.Join.{redeem}

abbrev pub Unused : Str → List PendingHandoff → Type 0
Unused token = All (λ h. h.token ≢ token)

-- No token is pending twice.
abbrev pub DistinctTokens : List PendingHandoff → Type 0
DistinctTokens [] = Unit
DistinctTokens (h ∷ hs) = Unused h.token hs × DistinctTokens hs

redeem-Unused :
    (token : Str) (now : ℕ) (hs : List PendingHandoff)
    → Unused token hs
    → redeem token now hs ≡ (none, hs)
unfolding redeem
redeem-Unused token now [] u = refl
redeem-Unused token now (h ∷ hs) u =
    ground (arith, str_eqb_iff h.token token, redeem-Unused token now hs u.1, u.0)

-- Where no token is pending twice, a token is good for one try: whatever the first try gave, also if the
-- token had expired, a second finds no seat.
pub redeem_once :
    (token : Str) (now later : ℕ) (hs : List PendingHandoff)
    → DistinctTokens hs
    → (redeem token later (redeem token now hs).1).0 ≡ none
unfolding redeem
redeem_once token now later [] d = refl
redeem_once token now later (h ∷ hs) d = elim (Bool-cases (str_eqb h.token token)) [
  | inl hit ↦ rw hit (
      ap (λ r. r.0)
        (redeem-Unused token later hs
          (subst (λ t. Unused t hs) ((str_eqb_iff h.token token).0 hit) d.0)))
  | inr miss ↦ ground (arith, miss, redeem_once token now later hs d.1)
]

-- A seat is given only for a token that is pending for that seat and was issued at most 60 seconds
-- before.
pub redeem_seat :
    (token : Str) (now seat : ℕ) (hs : List PendingHandoff)
    → (redeem token now hs).0 ≡ some seat
    → (h : PendingHandoff) × (i : ℕ) × (get_elem? hs i ≡ some h)
      × (h.token ≡ token)
      × (h.seat ≡ seat)
      × (sub64 now h.issued_at_ms ≤ 60000)
unfolding redeem
redeem_seat token now seat [] e = absurd (cc)
redeem_seat token now seat (h ∷ hs) e = elim (Bool-cases (str_eqb h.token token)) [
  | inl hit ↦
      (h, 0, refl, (str_eqb_iff h.token token).0 hit, ground (arith, hit), ground (arith, hit))
  | inr miss ↦
      let (h', i, at, same, for_seat, in_time) =
        redeem_seat token now seat hs (ground (arith, miss)) in
      (h', suc i, at, same, for_seat, in_time)
]
