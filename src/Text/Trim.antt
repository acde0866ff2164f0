-- ===== src/Text/Trim.antt =====
-- What strings.TrimSpace leaves of a text.
use Prim.Native.String.{[], ◌∷◌}
use text.Mathlib.TextEquality.{eq_iff}
use open_aura.Prelude.{
  ◌≡◌, refl, ◌∙◌, ap, String, Bool, true, false, Bool-cases, str_eq, arith, inl, inr, not, ◌||◌,
}
use open_aura.Text.{trim_space, trim_left, trim_right, is_space, is_empty}

-- A letter that is no space.
abbrev pub has_text : String → Bool
has_text [] = false
has_text (c ∷ s) = not (is_space c) || has_text s

has_text-trim_left : (s : String) → has_text (trim_left s) ≡ has_text s
unfolding trim_left
has_text-trim_left [] = refl
has_text-trim_left (c ∷ s) = let rest = has_text-trim_left s in ground arith

is_empty-trim_right : (s : String) → is_empty (trim_right s) ≡ not (has_text s)
unfolding trim_right is_empty
is_empty-trim_right [] = refl
is_empty-trim_right (c ∷ s) = let rest = is_empty-trim_right s in ground arith

is_empty_blank : (s : String) → str_eq s "" ≡ is_empty s
unfolding is_empty
is_empty_blank [] = refl
is_empty_blank (c ∷ s) = elim (Bool-cases (str_eq (c ∷ s) "")) [
  | inl e ↦ absurd (cc ((eq_iff (c ∷ s) "").0 e))
  | inr e ↦ e
]

-- A text is trimmed to nothing exactly when it has spaces only.
pub trim_space_blank : (s : String) → str_eq (trim_space s) "" ≡ not (has_text s)
unfolding trim_space
trim_space_blank s =
    is_empty_blank (trim_right (trim_left s))
    ∙ is_empty-trim_right (trim_left s)
    ∙ ap not (has_text-trim_left s)

-- One text after another.
abbrev pub before : String → String → String
before [] t = t
before (c ∷ s) t = c ∷ before s t

-- The first letter is no space.
abbrev pub starts : String → Bool
starts [] = false
starts (c ∷ s) = not (is_space c)

-- The last letter is no space.
abbrev pub ends : String → Bool
ends [] = false
ends (c ∷ []) = not (is_space c)
ends (c ∷ d ∷ s) = ends (d ∷ s)

trim_left-before : (b s : String) → has_text b ≡ false → trim_left (before b s) ≡ trim_left s
unfolding trim_left
trim_left-before [] s h = refl
trim_left-before (c ∷ b) s h = let rest = trim_left-before b s (ground arith) in ground arith

trim_left-starts : (i a : String) → starts i ≡ true → trim_left (before i a) ≡ before i a
unfolding trim_left
trim_left-starts [] a h = absurd (ground arith)
trim_left-starts (c ∷ i) a h = ground arith

trim_right_blank : (a : String) → has_text a ≡ false → trim_right a ≡ ""
unfolding trim_right is_empty
trim_right_blank [] h = refl
trim_right_blank (c ∷ a) h = let rest = trim_right_blank a (ground arith) in rw rest (ground arith)

trim_right-ends : (i a : String) → ends i ≡ true → has_text a ≡ false → trim_right (before i a) ≡ i
unfolding trim_right is_empty
trim_right-ends [] a h b = absurd (ground arith)
trim_right-ends (c ∷ []) a h b = let rest = trim_right_blank a b in rw rest (ground arith)
trim_right-ends (c ∷ d ∷ i) a h b =
    let rest = trim_right-ends (d ∷ i) a h b in rw rest (ground arith)

-- Blanks around a text that begins and ends with no space are trimmed away.
pub trim_space-before :
    (b i a : String)
    → has_text b ≡ false
    → starts i ≡ true
    → ends i ≡ true
    → has_text a ≡ false
    → trim_space (before b (before i a)) ≡ i
unfolding trim_space
trim_space-before b i a hb s e ha =
    ap trim_right (trim_left-before b (before i a) hb ∙ trim_left-starts i a s)
    ∙ trim_right-ends i a e ha

pub has_text-starts : (b i a : String) → starts i ≡ true → has_text (before b (before i a)) ≡ true
has_text-starts [] [] a h = absurd (ground arith)
has_text-starts [] (c ∷ i) a h = ground arith
has_text-starts (x ∷ b) i a h = let rest = has_text-starts b i a h in ground arith
