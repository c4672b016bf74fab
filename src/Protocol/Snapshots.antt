-- ===== src/Protocol/Snapshots.antt =====
-- StateSnapshot of src/session/sf4e__SessionProtocol.hxx: what the two games of a match compare. The
-- struct holds words of four bytes and no padding, so `memcmp` compares its fields.
use sf4_rollback_gui.Prelude.{
  ℕ, ◌≡◌, ◌↔◌, Bool, true, false, ◌&&◌, List, [], ◌∷◌, ◌++◌, ℤ, pos, int_eqb, int_eqb_iff, arith,
  refl,
}
use sf4_rollback_gui.Protocol.Types.{FixedPoint, Sides}

-- `root_pos` holds the bit patterns of the four floats.
pub record CharaStateSnapshot : Type 0 where
  pub status : ℤ
  pub root_pos : List ℕ
  pub chara_side : ℤ
  pub vit : FixedPoint
  pub vitmax : FixedPoint
  pub revenge : FixedPoint
  pub revengemax : FixedPoint
  pub recoverable : FixedPoint
  pub recoverablemax : FixedPoint
  pub super : FixedPoint
  pub supermax : FixedPoint
  pub sctimeamt : FixedPoint
  pub sctimemax : FixedPoint
  pub uctime : FixedPoint
  pub uctimemax : FixedPoint
  pub damage : FixedPoint
  pub combodamage : FixedPoint

pub record StateSnapshot : Type 0 where
  pub frame_idx : ℤ
  pub chara : Sides CharaStateSnapshot

unfoldable pub nat_words : List ℕ → List ℤ
nat_words [] = []
nat_words (n ∷ ns) = pos n ∷ nat_words ns

unfoldable pub fixed_words : FixedPoint → List ℤ
fixed_words f = pos f.fractional ∷ f.integral ∷ []

-- The fields in the order of the struct.
unfoldable pub chara_words : CharaStateSnapshot → List ℤ
chara_words c =
    (c.status ∷ nat_words c.root_pos)
    ++ (c.chara_side ∷ fixed_words c.vit)
    ++ fixed_words c.vitmax
    ++ fixed_words c.revenge
    ++ fixed_words c.revengemax
    ++ fixed_words c.recoverable
    ++ fixed_words c.recoverablemax
    ++ fixed_words c.super
    ++ fixed_words c.supermax
    ++ fixed_words c.sctimeamt
    ++ fixed_words c.sctimemax
    ++ fixed_words c.uctime
    ++ fixed_words c.uctimemax
    ++ fixed_words c.damage
    ++ fixed_words c.combodamage

unfoldable pub words : StateSnapshot → List ℤ
words s = s.frame_idx ∷ (chara_words s.chara.p1 ++ chara_words s.chara.p2)

unfoldable pub words_eqb : List ℤ → List ℤ → Bool
words_eqb [] [] = true
words_eqb [] (y ∷ ys) = false
words_eqb (x ∷ xs) [] = false
words_eqb (x ∷ xs) (y ∷ ys) = int_eqb x y && words_eqb xs ys

-- `memcmp(&a, &b, sizeof(StateSnapshot)) == 0`
unfoldable pub same_memory : StateSnapshot → StateSnapshot → Bool
same_memory a b = words_eqb (words a) (words b)

words_eqb_iff : (xs ys : List ℤ) → (words_eqb xs ys ≡ true) ↔ (xs ≡ ys)
unfolding words_eqb
words_eqb_iff [] [] = ground arith
words_eqb_iff [] (y ∷ ys) = ground arith
words_eqb_iff (x ∷ xs) [] = ground arith
words_eqb_iff (x ∷ xs) (y ∷ ys) = ground (arith, int_eqb_iff x y, words_eqb_iff xs ys)

pub same_memory_refl : (a : StateSnapshot) → same_memory a a ≡ true
unfolding same_memory
same_memory_refl a = (words_eqb_iff (words a) (words a)).1 refl
