-- ===== src/Game/Synctest/Detection.antt =====
-- What a sync test of src/sf4e/sf4e__Game__Battle__System.cxx detects.
use sf4_rollback_gui.Prelude.{
  ℕ, ◌+◌, ◌≤◌, ◌≡◌, ◌≢◌, ◌↔◌, refl, ◌∙◌, false, List, [], ◌∷◌, none, some, ℤ, length, All, int_eqb,
  Option-cases, int_eqb_iff, str_eqb_iff, inl, inr, arith,
}
use sf4_rollback_gui.Prelude.Map.{
  Map, find, insert, int_key, find-insert, find-insert_self, find-erase, length-insert-le,
  length-erase-le,
}
use sf4_rollback_gui.Game.Checksum.{SavedState}
use sf4_rollback_gui.Game.Synctest.{
  SynctestFrame, Line, frame_of, compare_parts, trim, compare_frame,
}

-- One call of SynctestCompareFrame.
pub record Save : Type 0 where
  pub frame : ℤ
  pub state : SavedState
  pub parts : List ℕ

unfoldable pub compare : Save → Map ℤ SynctestFrame → Map ℤ SynctestFrame
unfolding compare_frame
compare s w = (compare_frame s.frame s.state s.parts w).1

unfoldable pub compares : List Save → Map ℤ SynctestFrame → Map ℤ SynctestFrame
compares [] w = w
compares (s ∷ ss) w = compares ss (compare s w)

unfoldable pub report : Save → Map ℤ SynctestFrame → List Line
report s w = (compare_frame s.frame s.state s.parts w).0

trim-fits : (w : Map ℤ SynctestFrame) → length w ≤ 64 → trim w ≡ w
unfolding trim
trim-fits [] h = refl
trim-fits (e ∷ w) h = ground arith

length-trim : (w : Map ℤ SynctestFrame) → length (trim w) ≤ 64
unfolding trim
length-trim [] = omega arith
length-trim (e ∷ w) = ground (arith, length-trim w)

trim-insert :
    (f : ℤ) (r : SynctestFrame) (w : Map ℤ SynctestFrame)
    → length w + 1 ≤ 64
    → trim (insert f r w) ≡ insert f r w
trim-insert f r w h = trim-fits (insert f r w) (ground (arith, length-insert-le f r w))

-- The window stays bounded.
length-compare : (s : Save) (w : Map ℤ SynctestFrame) → length w ≤ 64 → length (compare s w) ≤ 64
unfolding compare compare_frame
length-compare s w h = elim (Option-cases (find s.frame w)) [
  | inl e ↦
      rw (compare, compare_frame, e) (length-trim (insert s.frame (frame_of s.state s.parts) w))
  | inr (prior, e) ↦ rw (compare, compare_frame, e) (ground (arith, length-erase-le s.frame w))
]

length-compare-le :
    (s : Save) (w : Map ℤ SynctestFrame) → length w + 1 ≤ 64 → length (compare s w) ≤ length w + 1
unfolding compare compare_frame
length-compare-le s w h = elim (Option-cases (find s.frame w)) [
  | inl e ↦
      rw (compare, compare_frame, e, trim-insert s.frame (frame_of s.state s.parts) w h)
        (length-insert-le s.frame (frame_of s.state s.parts) w)
  | inr (prior, e) ↦ rw (compare, compare_frame, e) (ground (arith, length-erase-le s.frame w))
]

-- A save of another frame.
find-compare :
    (s : Save) (f : ℤ) (w : Map ℤ SynctestFrame)
    → length w + 1 ≤ 64
    → s.frame ≢ f
    → find f (compare s w) ≡ find f w
unfolding compare compare_frame
find-compare s f w h other = elim (Option-cases (find s.frame w)) [
  | inl e ↦
      rw
        (
          compare,
          compare_frame,
          e,
          trim-insert s.frame (frame_of s.state s.parts) w h,
          find-insert s.frame f (frame_of s.state s.parts) w,
          miss,
        )
        refl
  | inr (prior, e) ↦ rw (compare, compare_frame, e, find-erase s.frame f w, miss) refl
]
  where
    miss : int_eqb s.frame f ≡ false
    miss = ground (arith, int_eqb_iff s.frame f)

abbrev pub Others : ℤ → List Save → Type 0
Others f ss = All (λ s. s.frame ≢ f) ss

find-compares :
    (ss : List Save) (f : ℤ) (w : Map ℤ SynctestFrame)
    → length w + length ss ≤ 64
    → Others f ss
    → find f (compares ss w) ≡ find f w
unfolding compares
find-compares [] f w h others = refl
find-compares (s ∷ ss) f w h others =
    find-compares ss f (compare s w) (ground (arith, length-compare-le s w (omega arith))) others.1
    ∙ find-compare s f w (omega arith) others.0

report-first :
    (s again : Save) (w : Map ℤ SynctestFrame)
    → find again.frame w ≡ some (frame_of s.state s.parts)
    → report again w
      ≡ compare_parts again.frame
          (length again.state.keys)
          (frame_of s.state s.parts)
          (frame_of again.state again.parts)
unfolding report compare_frame
report-first s again w e = rw (report, compare_frame, e) refl

find-recorded :
    (s : Save) (w : Map ℤ SynctestFrame)
    → length w + 1 ≤ 64
    → find s.frame w ≡ none
    → find s.frame (compare s w) ≡ some (frame_of s.state s.parts)
unfolding compare compare_frame
find-recorded s w h e =
    rw (compare, compare_frame, e, trim-insert s.frame (frame_of s.state s.parts) w h)
      (find-insert_self s.frame (frame_of s.state s.parts) w)

compare_parts-silent :
    (f : ℤ) (n : ℕ) (prior now : SynctestFrame)
    → (compare_parts f n prior now ≡ []) ↔ (prior.parts ≡ now.parts)
unfolding compare_parts
compare_parts-silent f n prior now = ground (arith, str_eqb_iff prior.parts now.parts)

-- In a window without the frame of the first save, take that save, then saves of other frames, so few
-- that all fit into the window, then a second save of the frame. The second save is reported as a
-- divergence exactly if its parts differ from those of the first.
pub report-detects :
    (s again : Save) (others : List Save) (w : Map ℤ SynctestFrame)
    → find s.frame w ≡ none
    → length w + 1 + length others ≤ 64
    → Others s.frame others
    → again.frame ≡ s.frame
    → (report again (compares others (compare s w)) ≡ []) ↔ (s.parts ≡ again.parts)
unfolding frame_of
report-detects s again others w e h o same =
    rw (report-first s again (compares others (compare s w)) found) (
      compare_parts-silent again.frame (length again.state.keys) (frame_of s.state s.parts)
        (frame_of again.state again.parts))
  where
    found : find again.frame (compares others (compare s w)) ≡ some (frame_of s.state s.parts)
    found = rw same (
        find-compares others s.frame (compare s w)
          (ground (arith, length-compare-le s w (omega arith))) o
        ∙ find-recorded s w (omega arith) e)
