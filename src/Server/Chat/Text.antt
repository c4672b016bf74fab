-- ===== src/Server/Chat/Text.antt =====
-- The text of a chat message (src/session/sf4e__SessionServer.cxx, MT_CHAT_SEND).
use sf4_rollback_gui.Prelude.{
  ℕ, zero, suc, ◌+◌, ◌≤◌, ◌<◌, ◌≡◌, true, false, refl, ◌∙◌, List, [], ◌∷◌, ◌++◌, Str, All, length,
  length-append, take, leb, ltb, arith, Bool-cases, inl, inr, if◌then◌else◌,
}
use mathlib.Core.List.{append-nil, append_assoc}
use sf4_rollback_gui.Server.Chat.{strip_loop}

-- The bytes that are no control characters.
pub printable : Str → Str
printable [] = []
printable (c ∷ cs) = let rest = printable cs in if leb 0x20 c then c ∷ rest else rest

take-nil : (k : ℕ) → ◌≡◌ {A = List ℕ} (take k []) []
take-nil zero = refl
take-nil (suc k) = refl

ltb-true : (n : ℕ) → n < 256 → ltb n 256 ≡ true
ltb-true n h = ground arith

ltb-false : (n : ℕ) → 256 ≤ n → ltb n 256 ≡ false
ltb-false n h = ground arith

-- With room for `k` more bytes.
strip_loop-take :
    (k : ℕ) (text cs : Str)
    → length text + k ≡ 256
    → strip_loop text cs ≡ text ++ take k (printable cs)
unfolding strip_loop printable
strip_loop-take k text [] h = rw (take-nil k, append-nil)
strip_loop-take zero text (c ∷ cs) h = rw (ltb-false (length text) (omega arith), append-nil)
strip_loop-take (suc k) text (c ∷ cs) h = elim (Bool-cases (leb 0x20 c)) [
  | inl kept ↦
      rw (ltb-true (length text) (omega arith), kept)
        (strip_loop-take k (text ++ c ∷ []) cs (omega (arith, length-append text (c ∷ [])))
          ∙ append_assoc text (c ∷ []) (take k (printable cs)))
  | inr dropped ↦
      rw (ltb-true (length text) (omega arith), dropped) (strip_loop-take (suc k) text cs h)
]

length-take-le : (k : ℕ) (cs : Str) → length (take k cs) ≤ k
length-take-le zero cs = omega arith
length-take-le (suc k) [] = omega arith
length-take-le (suc k) (c ∷ cs) = omega (arith, length-take-le k cs)

take-printable-All : (k : ℕ) (cs : Str) → All (λ c. 0x20 ≤ c) (take k (printable cs))
unfolding printable
take-printable-All zero cs = tt
take-printable-All (suc k) [] = tt
take-printable-All (suc k) (c ∷ cs) = elim (Bool-cases (leb 0x20 c)) [
  | inl kept ↦ rw kept (ground (arith, kept), take-printable-All k cs)
  | inr dropped ↦ rw dropped (take-printable-All (suc k) cs)
]

-- What the server passes on is the first 256 of the bytes that are no control characters; so it has at
-- most 256 bytes, and none below 0x20.
pub strip_loop_lem :
    (cs : Str)
    → (strip_loop [] cs ≡ take 256 (printable cs))
      × (length (strip_loop [] cs) ≤ 256)
      × All (λ c. 0x20 ≤ c) (strip_loop [] cs)
strip_loop_lem cs =
    let e = strip_loop-take 256 [] cs refl in
    (e, rw e (length-take-le 256 (printable cs)), rw e (take-printable-All 256 cs))
