-- ===== src/Server/Forensics/Pairs.antt =====
-- The key of a pair of names (PairKey of src/session/sf4e__SessionServer.cxx).
use sf4_rollback_gui.Prelude.{
  ◌≡◌, ◌≢◌, ◌⊎◌, inl, inr, ◌↔◌, [], ◌∷◌, ◌++◌, Str, str_eqb, str_eqb_iff, str_ltb_total, All, arith,
  Bool-cases,
}
use sf4_rollback_gui.Server.Forensics.{pair_key}

abbrev pub Free : Str → Type 0
Free = All (λ c. c ≢ 0x1f)

-- Texts that agree up to the first separator.
split_inj :
    (a b c d : Str) → Free a → Free c → a ++ (0x1f ∷ b) ≡ c ++ (0x1f ∷ d) → (a ≡ c) × (b ≡ d)
split_inj [] b [] d fa fc e = ground arith
split_inj [] b (y ∷ c) d fa fc e = absurd (fc.0 (ground arith))
split_inj (x ∷ a) b [] d fa fc e = absurd (fa.0 (ground arith))
split_inj (x ∷ a) b (y ∷ c) d fa fc e = ground (arith, split_inj a b c d fa.1 fc.1)

-- The order of the two names does not matter.
pub pair_key_comm : (a b : Str) → pair_key a b ≡ pair_key b a
unfolding pair_key
pair_key_comm a b = elim (Bool-cases (str_eqb a b)) [
  | inl e ↦ ground (arith, str_eqb_iff a b)
  | inr e ↦ ground (arith, str_ltb_total a b (λ q. ground (arith, (str_eqb_iff a b).1 q)))
]

pair_key-pair :
    (a b c d : Str)
    → Free a × Free b × Free c × Free d
    → pair_key a b ≡ pair_key c d
    → ((a ≡ c) × (b ≡ d)) ⊎ ((a ≡ d) × (b ≡ c))
unfolding pair_key
pair_key-pair a b c d (fa, fb, fc, fd) e = ground (
  arith,
  split_inj a b c d fa fc,
  split_inj a b d c fa fd,
  split_inj b a c d fb fc,
  split_inj b a d c fb fd,
)

same_pair-pair_key :
    (a b c d : Str) → ((a ≡ c) × (b ≡ d)) ⊎ ((a ≡ d) × (b ≡ c)) → pair_key a b ≡ pair_key c d
same_pair-pair_key a b c d (inl h) = cc (h.0, h.1)
same_pair-pair_key a b c d (inr h) = cc (h.0, h.1, pair_key_comm c d)

-- Names without the separator byte 0x1f have the same key exactly when they are the same two names, in
-- either order.
pub pair_key_inj :
    (a b c d : Str)
    → Free a × Free b × Free c × Free d
    → (pair_key a b ≡ pair_key c d) ↔ (((a ≡ c) × (b ≡ d)) ⊎ ((a ≡ d) × (b ≡ c)))
pair_key_inj a b c d free = (pair_key-pair a b c d free, same_pair-pair_key a b c d)
