-- ===== src/Prelude/Map.antt =====
-- `std::map` as an association list in the order of its keys, which is the order of iteration.
use mathlib.Core.Path.{◌≡◌, refl, subst}
use mathlib.Core.Logic.{◌↔◌, inl, inr}
use mathlib.Core.Bool.{Bool, true}
use mathlib.Core.Option.{Option, none, some}
use mathlib.Core.List.{List, [], ◌∷◌}
use native.Mathlib.Omega.{arith}
use Prim.Native.Nat.{ℕ, ◌+◌, ◌≤◌}
use sf4_rollback_gui.Prelude.Tests.{◌==◌, ==_iff, ltb, if◌then◌else◌, Bool-cases}
use sf4_rollback_gui.Prelude.Lists.{All, length}
use sf4_rollback_gui.Prelude.Int.{ℤ, int_eqb, int_eqb_iff, int_ltb}
use sf4_rollback_gui.Prelude.Text.{Str, str_eqb, str_eqb_iff, str_ltb}

-- A type of keys: the tests that the map makes.
pub record Key {ℓ} (K : Type ℓ) : Type ℓ where
  pub eqb : K → K → Bool
  pub eqb_iff : (a b : K) → (eqb a b ≡ true) ↔ (a ≡ b)
  pub lessb : K → K → Bool

instance abbrev pub nat_key : Key ℕ
nat_key = record { eqb = ◌==◌; eqb_iff = ==_iff; lessb = ltb }

instance abbrev pub str_key : Key Str
str_key = record { eqb = str_eqb; eqb_iff = str_eqb_iff; lessb = str_ltb }

instance abbrev pub int_key : Key ℤ
int_key = record { eqb = int_eqb; eqb_iff = int_eqb_iff; lessb = int_ltb }

abbrev pub Map {ℓ κ} : Type ℓ → Type κ → Type (ℓ ⊔ κ)
Map K V = List (K × V)

module _ {ℓ κ} {K : Type ℓ} {V : Type κ} ⦃key : Key K⦄ where
  unfoldable pub find : K → Map K V → Option V
  find k [] = none
  find k ((j, v) ∷ m) = if key.eqb j k then some v else find k m

  -- m[k] = v
  unfoldable pub insert : K → V → Map K V → Map K V
  insert k v [] = (k, v) ∷ []
  insert k v ((j, w) ∷ m) =
      if key.eqb j k
      then (k, v) ∷ m
      else if key.lessb k j
      then (k, v) ∷ (j, w) ∷ m
      else (j, w) ∷ insert k v m

  -- m.erase(k)
  unfoldable pub erase : K → Map K V → Map K V
  erase k [] = []
  erase k ((j, v) ∷ m) = let rest = erase k m in if key.eqb j k then rest else (j, v) ∷ rest

  pub find-insert :
      (k i : K) (v : V) (m : Map K V)
      → find i (insert k v m) ≡ (if key.eqb k i then some v else find i m)
  unfolding find insert
  find-insert k i v [] = refl
  find-insert k i v ((j, w) ∷ m) =
      ground (arith, key.eqb_iff j k, key.eqb_iff j i, key.eqb_iff k i, find-insert k i v m)

  pub find-erase :
      (k i : K) (m : Map K V) → find i (erase k m) ≡ (if key.eqb k i then none else find i m)
  unfolding find erase
  find-erase k i [] = ground arith
  find-erase k i ((j, w) ∷ m) =
      ground (arith, key.eqb_iff j k, key.eqb_iff j i, key.eqb_iff k i, find-erase k i m)

  -- A second write to a key replaces the first.
  pub insert-insert : (k : K) (v w : V) (m : Map K V) → insert k v (insert k w m) ≡ insert k v m
  unfolding insert
  insert-insert k v w [] = ground (arith, key.eqb_iff k k)
  insert-insert k v w ((j, u) ∷ m) =
      ground (arith, key.eqb_iff k k, key.eqb_iff j k, insert-insert k v w m)

  pub find-insert_self : (k : K) (v : V) (m : Map K V) → find k (insert k v m) ≡ some v
  find-insert_self k v m = rw (find-insert k k v m, (key.eqb_iff k k).1 refl)

  pub length-erase-le : (k : K) (m : Map K V) → length (erase k m) ≤ length m
  unfolding erase
  length-erase-le k [] = omega arith
  length-erase-le k ((j, v) ∷ m) = ground (arith, length-erase-le k m)

  pub length-insert-le : (k : K) (v : V) (m : Map K V) → length (insert k v m) ≤ length m + 1
  unfolding insert
  length-insert-le k v [] = omega arith
  length-insert-le k v ((j, w) ∷ m) = ground (arith, length-insert-le k v m)

  module _ {μ} (P : K × V → Type μ) where
    pub All-insert : (k : K) (v : V) (m : Map K V) → P (k, v) → All P m → All P (insert k v m)
    unfolding insert
    All-insert k v [] p h = (p, tt)
    All-insert k v ((j, w) ∷ m) p h = elim (Bool-cases (key.eqb j k)) [
      | inl e ↦ rw e (p, h.1)
      | inr e ↦ elim (Bool-cases (key.lessb k j)) [
        | inl f ↦ rw (e, f) (p, h)
        | inr f ↦ rw (e, f) (h.0, All-insert k v m p h.1)
      ]
    ]

    pub All-erase : (k : K) (m : Map K V) → All P m → All P (erase k m)
    unfolding erase
    All-erase k [] h = tt
    All-erase k ((j, w) ∷ m) h = elim (Bool-cases (key.eqb j k)) [
      | inl e ↦ rw e (All-erase k m h.1)
      | inr e ↦ rw e (h.0, All-erase k m h.1)
    ]

    -- What a lookup returns stands in the list.
    pub All-find : (k : K) (m : Map K V) (v : V) → All P m → find k m ≡ some v → P (k, v)
    unfolding find
    All-find k [] v h e = absurd (cc)
    All-find k ((j, w) ∷ m) v h e = elim (Bool-cases (key.eqb j k)) [
      | inl hit ↦ subst P (pair hit) h.0
      | inr miss ↦ All-find k m v h.1 (ground arith)
    ]
      where
        pair : key.eqb j k ≡ true → ◌≡◌ {A = K × V} (j, w) (k, v)
        pair hit = ground (arith, key.eqb_iff j k)
