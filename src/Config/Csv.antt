-- ===== src/Config/Csv.antt =====
-- Lists of settings: splitCSV of internal/config/config.go.
use Prim.Native.String.{[], ◌∷◌}
use open_aura.Prelude.{
  ◌≡◌, refl, ◌∙◌, ap, String, List, [], ◌∷◌, All, map, true, false, Char, code, ◌==◌, arith,
}
use open_aura.Text.{is_space, split}
use open_aura.Text.Trim.{
  has_text, trim_space_blank, before, starts, ends, trim_space-before, has_text-starts,
}
use open_aura.Config.{kept_parts, split_csv}

-- A text without the letter.
abbrev pub IsFree : Char → String → Type 0
IsFree sep [] = Unit
IsFree sep (c ∷ s) = (code c == code sep ≡ false) × IsFree sep s

-- One text in front of another, with the letter between them.
abbrev pub followed_by : Char → String → String → String
followed_by sep [] rest = sep ∷ rest
followed_by sep (c ∷ s) rest = c ∷ followed_by sep s rest

abbrev pub joined : Char → List String → String
joined sep [] = []
joined sep (s ∷ []) = s
joined sep (s ∷ t ∷ ts) = followed_by sep s (joined sep (t ∷ ts))

module _ (sep : Char) where
  split-IsFree : (s : String) → IsFree sep s → split sep s ≡ s ∷ []
  unfolding split
  split-IsFree [] h = refl
  split-IsFree (c ∷ s) (h, hs) = let rest = split-IsFree s hs in ground arith

  split-followed_by :
      (s rest : String) → IsFree sep s → split sep (followed_by sep s rest) ≡ s ∷ split sep rest
  unfolding split
  split-followed_by [] rest h = ground arith
  split-followed_by (c ∷ s) rest (h, hs) = let e = split-followed_by s rest hs in ground arith

  -- What is joined is split again.
  pub split-joined :
      (s : String) (ts : List String)
      → All (IsFree sep) (s ∷ ts)
      → split sep (joined sep (s ∷ ts)) ≡ s ∷ ts
  split-joined s [] h = split-IsFree s h.0
  split-joined s (t ∷ ts) h =
      split-followed_by s (joined sep (t ∷ ts)) h.0 ∙ ap (λ x. s ∷ x) (split-joined t ts h.1)

-- A part of a list as it may be written: blanks only, or an id with blanks around it.
pub data Part : Type 0 where
  blanks : String → Part
  padded : String → String → String → Part

abbrev pub text_of : Part → String
text_of (blanks s) = s
text_of (padded b id a) = before b (before id a)

-- Blanks are spaces only; an id has no comma, and neither begins nor ends with a space.
abbrev pub IsPart : Part → Type 0
IsPart (blanks s) = has_text s ≡ false
IsPart (padded b id a) =
    (has_text b ≡ false)
    × IsFree "," id
    × (starts id ≡ true)
    × (ends id ≡ true)
    × (has_text a ≡ false)

-- the ids that are written
abbrev pub ids_of : List Part → List String
ids_of [] = []
ids_of (blanks s ∷ ps) = ids_of ps
ids_of (padded b id a ∷ ps) = id ∷ ids_of ps

comma : is_space "," ≡ false
unfolding is_space
comma = refl

space_no_comma : (c : Char) → is_space c ≡ true → (code c == 44) ≡ false
unfolding is_space
space_no_comma c h = ground arith

blanks-IsFree : (s : String) → has_text s ≡ false → IsFree "," s
blanks-IsFree [] h = tt
blanks-IsFree (c ∷ s) h = (space_no_comma c (ground arith), blanks-IsFree s (ground arith))

before-IsFree : (s t : String) → IsFree "," s → IsFree "," t → IsFree "," (before s t)
before-IsFree [] t hs ht = ht
before-IsFree (c ∷ s) t hs ht = (hs.0, before-IsFree s t hs.1 ht)

text_of-IsFree : (p : Part) → IsPart p → IsFree "," (text_of p)
text_of-IsFree (blanks s) h = blanks-IsFree s h
text_of-IsFree (padded b id a) (hb, f, s, e, ha) =
    before-IsFree b (before id a) (blanks-IsFree b hb) (before-IsFree id a f (blanks-IsFree a ha))

texts-AreFree : (ps : List Part) → All IsPart ps → All (IsFree ",") (map text_of ps)
texts-AreFree [] h = tt
texts-AreFree (p ∷ ps) h = (text_of-IsFree p h.0, texts-AreFree ps h.1)

kept_parts-ids_of : (ps : List Part) → All IsPart ps → kept_parts (map text_of ps) ≡ ids_of ps
unfolding kept_parts
kept_parts-ids_of [] h = refl
kept_parts-ids_of (blanks s ∷ ps) h =
    let blank = trim_space_blank s in rw (kept_parts, blank, h.0) (kept_parts-ids_of ps h.1)
kept_parts-ids_of (padded b id a ∷ ps) ((hb, f, s, e, ha), hs) =
    let blank = trim_space_blank (before b (before id a)) in
    let text = has_text-starts b id a s in
    let trimmed = trim_space-before b id a hb s e ha in
    rw (kept_parts, blank, text, trimmed) (ap (λ x. id ∷ x) (kept_parts-ids_of ps hs))

-- Two texts with a comma between them are not blank.
has_text-followed_by : (s rest : String) → has_text (followed_by "," s rest) ≡ true
has_text-followed_by [] rest = rw comma refl
has_text-followed_by (c ∷ s) rest = let more = has_text-followed_by s rest in ground arith

split_parts :
    (p : Part) (ps : List Part)
    → All IsPart (p ∷ ps)
    → kept_parts (split "," (joined "," (map text_of (p ∷ ps)))) ≡ ids_of (p ∷ ps)
split_parts p ps h =
    ap kept_parts (split-joined "," (text_of p) (map text_of ps) (texts-AreFree (p ∷ ps) h))
    ∙ kept_parts-ids_of (p ∷ ps) h

-- A list with commas, in which each part is blank or an id with blanks around it, is read as the ids
-- in their order, without the blanks and without the blank parts.
pub split_csv-joined :
    (ps : List Part) → All IsPart ps → split_csv (joined "," (map text_of ps)) ≡ ids_of ps
unfolding split_csv
split_csv-joined [] h = let blank = trim_space_blank "" in rw blank refl
split_csv-joined (blanks s ∷ []) h =
    let blank = trim_space_blank s in rw (split_csv, blank, h.0) refl
split_csv-joined (padded b id a ∷ []) h =
    let blank = trim_space_blank (before b (before id a)) in
    let text = has_text-starts b id a h.0.2 in
    rw (split_csv, blank, text) (split_parts (padded b id a) [] h)
split_csv-joined (p ∷ q ∷ ps) h =
    let raw = joined "," (map text_of (p ∷ q ∷ ps)) in
    let blank = trim_space_blank raw in
    let text = has_text-followed_by (text_of p) (joined "," (map text_of (q ∷ ps))) in
    rw (split_csv, blank, text) (split_parts p (q ∷ ps) h)
