-- ===== src/Text.antt =====
-- The functions of Go's package strings that the program calls, on texts of Unicode code points.
use open_aura.Prelude.{
  List, [], ◌∷◌, ℕ, zero, suc, Bool, true, false, ◌&&◌, ◌||◌, Char, code, String, ◌==◌, leb,
  if◌then◌else◌,
}
pub mod Trim
use Prim.Native.String.{[], ◌∷◌}

-- unicode.IsSpace
unfoldable pub is_space : Char → Bool
is_space ch =
    let c = code ch in
    (leb 9 c && leb c 13)
    || c == 32
    || c == 0x85
    || c == 0xA0
    || c == 0x1680
    || (leb 0x2000 c && leb c 0x200a)
    || c == 0x2028
    || c == 0x2029
    || c == 0x202f
    || c == 0x205f
    || c == 0x3000

unfoldable pub trim_left : String → String
trim_left [] = []
trim_left (c ∷ s) = let rest = trim_left s in if is_space c then rest else c ∷ s

is_empty : String → Bool
is_empty [] = true
is_empty (_ ∷ _) = false

unfoldable pub trim_right : String → String
unfolding is_empty
trim_right [] = []
trim_right (c ∷ s) = let rest = trim_right s in if is_empty rest && is_space c then [] else c ∷ rest

-- strings.TrimSpace
unfoldable pub trim_space : String → String
unfolding trim_left trim_right is_space
trim_space s = trim_right (trim_left s)

-- The letter of `lower` at the place where `upper` has `c`; `other` for a letter that is not there.
translate : String → String → Char → Char → Char
translate (u ∷ us) (l ∷ ls) c other = if code u == code c then l else translate us ls c other
translate _ _ c other = other

-- strings.ToLower, with the Unicode table for the letters beyond ASCII as a parameter.
unfoldable pub lower_char : (Char → Char) → Char → Char
unfolding translate
lower_char unicode_lower c =
    if leb (code c) 127
    then translate "ABCDEFGHIJKLMNOPQRSTUVWXYZ" "abcdefghijklmnopqrstuvwxyz" c c
    else unicode_lower c

unfoldable pub to_lower : (Char → Char) → String → String
unfolding lower_char
to_lower unicode_lower [] = []
to_lower unicode_lower (c ∷ s) = lower_char unicode_lower c ∷ to_lower unicode_lower s

abbrev onto : Char → List String → List String
onto c [] = (c ∷ []) ∷ []
onto c (p ∷ ps) = (c ∷ p) ∷ ps

-- strings.Split at a letter
unfoldable pub split : Char → String → List String
split sep [] = [] ∷ []
split sep (c ∷ s) = let rest = split sep s in if code c == code sep then [] ∷ rest else onto c rest

-- strings.HasPrefix
unfoldable pub has_prefix : String → String → Bool
has_prefix s [] = true
has_prefix [] (_ ∷ _) = false
has_prefix (c ∷ s) (p ∷ ps) = code c == code p && has_prefix s ps

-- strings.Contains
unfoldable pub contains : String → String → Bool
unfolding has_prefix
contains [] sub = has_prefix [] sub
contains (c ∷ s) sub = has_prefix (c ∷ s) sub || contains s sub

-- s[n:] for a text that begins with n letters of one byte
unfoldable pub drop_bytes : ℕ → String → String
drop_bytes zero s = s
drop_bytes (suc n) [] = []
drop_bytes (suc n) (_ ∷ s) = drop_bytes n s
