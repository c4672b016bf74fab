-- ===== src/App/Settings/Fixed.antt =====
-- A setting that src/client/lobby_client.cxx has fixed is found with the value that it requires.
use sf4_rollback_gui.Prelude.{
  ℕ, suc, ◌≤◌, ◌≡◌, ◌≢◌, refl, sym, ap, ◌∙◌, subst, true, ◌||◌, [], ◌∷◌, ◌++◌, Option, none, some,
  Str, lit, str_eqb, str_eqb_iff, length, All, ◌==◌, ==_iff, Bool-cases, Option-cases, inl, inr,
  arith,
}
use sf4_rollback_gui.Server.Relay.{strip_prefix}
use sf4_rollback_gui.App.State.{App}
use sf4_rollback_gui.App.Settings.{
  Setting, Span, split_line, after_needle, shift, first_of, search, find_ini_value, has_setting,
  fix_setting,
}

-- A byte that does not end a line.
abbrev pub InLine : ℕ → Type 0
InLine c = (c ≢ 13) × (c ≢ 10)

-- The rest of a line is empty or begins with the end of the line.
split_line_again :
    (required rest : Str)
    → All InLine required
    → split_line (required ++ (split_line rest).1) ≡ (required, (split_line rest).1)
unfolding split_line
split_line_again [] [] h = refl
split_line_again [] (c ∷ rest) h = elim (Bool-cases ((c == 13) || (c == 10))) [
  | inl e ↦ rw (split_line, e) (rw e refl)
  | inr e ↦ rw (split_line, e) (split_line_again [] rest tt)
]
split_line_again (c ∷ required) rest h =
    ground (arith, ==_iff c 13, ==_iff c 10, h.0, split_line_again required rest h.1)

strip_prefix_self : (p s : Str) → strip_prefix p (p ++ s) ≡ some s
unfolding strip_prefix
strip_prefix_self [] s = refl
strip_prefix_self (c ∷ p) s = ground (arith, ==_iff c c, strip_prefix_self p s)

-- What stands behind a text that is long enough does not matter.
strip_prefix_local :
    (p x y z : Str)
    → length p ≤ length x
    → strip_prefix p (x ++ y) ≡ none
    → strip_prefix p (x ++ z) ≡ none
unfolding strip_prefix
strip_prefix_local [] x y z h e = absurd (ground arith)
strip_prefix_local (c ∷ p) [] y z h e = absurd (omega (arith, h))
strip_prefix_local (c ∷ p) (d ∷ x) y z h e =
    ground (arith, strip_prefix_local p x y z (omega arith))

split_line_whole : (s : Str) → (split_line s).0 ++ (split_line s).1 ≡ s
unfolding split_line
split_line_whole [] = refl
split_line_whole (c ∷ s) = ground (arith, split_line_whole s)

strip_prefix_whole : (p s r : Str) → strip_prefix p s ≡ some r → s ≡ p ++ r
unfolding strip_prefix
strip_prefix_whole [] s r e = ground arith
strip_prefix_whole (c ∷ p) [] r e = absurd (cc)
strip_prefix_whole (c ∷ p) (d ∷ s) r e = ground (arith, ==_iff c d, strip_prefix_whole p s r)

-- A span in a content: its value can be replaced, and the same search finds the new one.
record Found (find_in : Str → Option Span) (n : ℕ) (content before value after : Str) : Type 0 where
  whole : content ≡ before ++ (value ++ after)
  long : n ≤ length before
  again :
      (required : Str)
      → All InLine required
      → find_in (before ++ (required ++ after)) ≡ some (before, (required, after))

search_hit :
    (needle s r : Str)
    → strip_prefix needle s ≡ some r
    → search needle s ≡ some (needle, split_line r)
unfolding search after_needle first_of
search_hit needle [] r e = rw (search, e) refl
search_hit needle (c ∷ s) r e = rw (search, e) refl

search_miss :
    (needle s : Str) (c : ℕ)
    → strip_prefix needle (c ∷ s) ≡ none
    → search needle (c ∷ s) ≡ shift (c ∷ []) (search needle s)
unfolding search after_needle first_of
search_miss needle s c e = rw (search, e) refl

hit-Found :
    (needle content r : Str)
    → strip_prefix needle content ≡ some r
    → Found (search needle) (length needle) content needle (split_line r).0 (split_line r).1
hit-Found needle content r e = record {
  whole = strip_prefix_whole needle content r e ∙ ap (λ s. needle ++ s) (sym (split_line_whole r));
  long = omega arith;
  again = λ required h.
      search_hit needle (needle ++ (required ++ (split_line r).1)) (required ++ (split_line r).1)
        (strip_prefix_self needle (required ++ (split_line r).1))
      ∙ ap (λ l. some (needle, l)) (split_line_again required r h);
}

miss-Found :
    (needle s before value after : Str) (c : ℕ)
    → strip_prefix needle (c ∷ s) ≡ none
    → Found (search needle) (length needle) s before value after
    → Found (search needle) (length needle) (c ∷ s) (c ∷ before) value after
unfolding shift
miss-Found needle s before value after c e f = record {
  whole = ap (λ l. c ∷ l) f.whole;
  long = omega (arith, f.long);
  again = λ required h.
      search_miss needle (before ++ (required ++ after)) c (
        strip_prefix_local needle (c ∷ before) (value ++ after) (required ++ after)
          (omega (arith, f.long)) (subst (λ l. strip_prefix needle (c ∷ l) ≡ none) f.whole e))
      ∙ ap (shift (c ∷ [])) (f.again required h);
}

abbrev FoundSpan : (Str → Option Span) → ℕ → Str → Span → Type 0
FoundSpan find_in n content span = Found find_in n content span.0 span.1.0 span.1.1

same_span : (o : Option Span) (a b : Span) → o ≡ some a → o ≡ some b → a ≡ b
same_span o a b e f = cc

search-Found :
    (needle content : Str) (span : Span)
    → search needle content ≡ some span
    → FoundSpan (search needle) (length needle) content span
unfolding search after_needle first_of shift
search-Found needle [] span e = elim (Option-cases (strip_prefix needle [])) [
  | inl f ↦ absurd (ground (arith, f, e))
  | inr (r, f) ↦
      subst (FoundSpan (search needle) (length needle) [])
        (same_span (search needle []) (needle, split_line r) span (search_hit needle [] r f) e)
        (hit-Found needle [] r f)
]
search-Found needle (c ∷ s) span e = elim (Option-cases (strip_prefix needle (c ∷ s))) [
  | inl f ↦ elim (Option-cases (search needle s)) [
    | inl g ↦ absurd (ground (arith, e, f, g))
    | inr (inner, g) ↦
        subst (FoundSpan (search needle) (length needle) (c ∷ s))
          (same_span (search needle (c ∷ s)) (c ∷ inner.0, inner.1) span
            (search_miss needle s c f ∙ ap (shift (c ∷ [])) g) e)
          (miss-Found needle s inner.0 inner.1.0 inner.1.1 c f (search-Found needle s inner g))
  ]
  | inr (r, f) ↦
      subst (FoundSpan (search needle) (length needle) (c ∷ s))
        (same_span (search needle (c ∷ s)) (needle, split_line r) span
          (search_hit needle (c ∷ s) r f) e)
        (hit-Found needle (c ∷ s) r f)
]

-- The search in a whole file, which may begin with the key.
front :
    (key content r : Str)
    → strip_prefix (key ++ lit "=") content ≡ some r
    → find_ini_value content key ≡ some (key ++ lit "=", split_line r)
unfolding find_ini_value after_needle first_of
front key content r e = rw (find_ini_value, e) refl

not_front :
    (key content : Str)
    → strip_prefix (key ++ lit "=") content ≡ none
    → find_ini_value content key ≡ search (10 ∷ (key ++ lit "=")) content
unfolding find_ini_value after_needle first_of
not_front key content e = rw (find_ini_value, e) refl

find_again :
    (key content : Str) (span : Span) (required : Str)
    → find_ini_value content key ≡ some span
    → All InLine required
    → find_ini_value (span.0 ++ (required ++ span.1.1)) key ≡ some (span.0, (required, span.1.1))
find_again key content span required e h =
    elim (Option-cases (strip_prefix (key ++ lit "=") content)) [
      | inr (r, f) ↦
          subst
            (λ sp.
              find_ini_value (sp.0 ++ (required ++ sp.1.1)) key ≡ some (sp.0, (required, sp.1.1)))
            (same_span (find_ini_value content key) (key ++ lit "=", split_line r) span
              (front key content r f) e)
            (front key ((key ++ lit "=") ++ (required ++ (split_line r).1))
                (required ++ (split_line r).1)
                (strip_prefix_self (key ++ lit "=") (required ++ (split_line r).1))
              ∙ ap (λ l. some (key ++ lit "=", l)) (split_line_again required r h))
      | inl f ↦
          later
            (search-Found (10 ∷ (key ++ lit "=")) content span (sym (not_front key content f) ∙ e))
            f
    ]
  where
    later :
        FoundSpan (search (10 ∷ (key ++ lit "="))) (suc (length (key ++ lit "="))) content span
        → strip_prefix (key ++ lit "=") content ≡ none
        → find_ini_value (span.0 ++ (required ++ span.1.1)) key
          ≡ some (span.0, (required, span.1.1))
    later g f =
        not_front key (span.0 ++ (required ++ span.1.1)) (
          strip_prefix_local (key ++ lit "=") span.0 (span.1.0 ++ span.1.1) (required ++ span.1.1)
            (omega (arith, g.long)) (subst (λ l. strip_prefix (key ++ lit "=") l ≡ none) g.whole f))
        ∙ g.again required h

-- Take a setting whose required value holds no end of a line, and a content with a line for its key.
-- After the fix of the setting the check finds the required value, and the app shows no alert for it.
pub fix_setting-has_setting :
    (s : Setting) (content : Str) (span : Span) (a : App)
    → find_ini_value content s.key ≡ some span
    → All InLine s.required
    → (has_setting (fix_setting s (content, a)).0 s ≡ true) × ((fix_setting s (content, a)).1 ≡ a)
unfolding fix_setting has_setting
fix_setting-has_setting s content span a e h = elim (Bool-cases (str_eqb span.1.0 s.required)) [
  | inl f ↦ rw (fix_setting, e, f) (rw (has_setting, e, f) refl, refl)
  | inr f ↦
      rw (fix_setting, e, f)
        (
          rw
              (
                has_setting,
                find_again s.key content span s.required e h,
                (str_eqb_iff s.required s.required).1 refl,
              )
              refl,
          refl,
        )
]
