-- ===== src/Atoi.antt =====
-- strconv.Atoi with its error ignored, as httpx.Pagination calls it: the value that comes back.
use Prim.Native.String.{[], ◌∷◌}
use open_aura.Prelude.{
  ℕ, ◌+◌, ◌-◌, ◌*◌, ◌/◌, ◌^◌, Option, none, some, String, code, ℤ, pos, negsuc, ltb, leb, ◌==◌,
  ◌&&◌, if◌then◌else◌,
}

abbrev pub max_uint64 : ℕ
max_uint64 = 2 ^ 64 - 1

-- The digits, `none` for a syntax error; past 64 bits the scan stops with the largest value.
unfoldable pub parse_uint : ℕ → String → Option ℕ
parse_uint n [] = some n
parse_uint n (c ∷ s) =
    let d = code c - 48 in
    let rest = parse_uint (n * 10 + d) s in
    if leb 48 (code c) && leb (code c) 57
    then (if leb (max_uint64 / 10 + 1) n
        then some max_uint64
        else if ltb max_uint64 (n * 10 + d)
        then some max_uint64
        else rest)
    else none

abbrev positive : Option ℕ → ℤ
positive none = pos 0
positive (some n) = if leb (2 ^ 63) n then pos (2 ^ 63 - 1) else pos n

abbrev negated : Option ℕ → ℤ
negated none = pos 0
negated (some n) =
    if ltb (2 ^ 63) n then negsuc (2 ^ 63 - 1) else if n == 0 then pos 0 else negsuc (n - 1)

-- a text of digits must not be empty
digits : String → Option ℕ
unfolding parse_uint
digits [] = none
digits (c ∷ s) = parse_uint 0 (c ∷ s)

unfoldable pub atoi : String → ℤ
unfolding digits
atoi [] = pos 0
atoi (c ∷ s) =
    if code c == b'-'
    then negated (digits s)
    else if code c == b'+'
    then positive (digits s)
    else positive (digits (c ∷ s))
