-- ===== src/Jwks/Base64.antt =====
-- base64.RawURLEncoding.DecodeString of Go, as apple_jwks.go calls it.
use Prim.Native.String.{[], ◌∷◌}
use open_aura.Prelude.{
  ℕ, ◌+◌, ◌-◌, ◌*◌, ◌/◌, ◌%◌, Option, none, some, String, code, List, [], ◌∷◌, ◌&&◌, ◌||◌, ◌==◌,
  leb, ◌≡◌, refl, ◌<◌, All, Bool-cases, inl, inr, arith, if◌then◌else◌,
}

-- the six bits of a letter
unfoldable pub digit : ℕ → Option ℕ
digit c =
    if leb 65 c && leb c 90
    then some (c - 65)
    else if leb 97 c && leb c 122
    then some (c - 71)
    else if leb 48 c && leb c 57
    then some (c + 4)
    else if c == 45
    then some 62
    else if c == 95
    then some 63
    else none

-- one more item before the ones that are given, unless one is missing
abbrev pub before : Option ℕ → Option (List ℕ) → Option (List ℕ)
before none ds = none
before (some d) none = none
before (some d) (some ds) = some (d ∷ ds)

-- the digits of a text; line breaks are skipped, any other letter is an error
unfoldable pub digits : String → Option (List ℕ)
unfolding digit
digits [] = some []
digits (c ∷ s) =
    let rest = digits s in
    if code c == 10 || code c == 13 then rest else before (digit (code c)) rest

-- a byte or two or three bytes before the ones that are given
abbrev pub before_all : ℕ → ℕ → ℕ → Option (List ℕ) → Option (List ℕ)
before_all x y z none = none
before_all x y z (some bs) = some (x ∷ y ∷ z ∷ bs)

-- four digits are three bytes; two or three digits may end the text, and their last bits are dropped
unfoldable pub bytes : List ℕ → Option (List ℕ)
bytes [] = some []
bytes (a ∷ []) = none
bytes (a ∷ b ∷ []) = some ((a * 4 + b / 16) ∷ [])
bytes (a ∷ b ∷ c ∷ []) = some ((a * 4 + b / 16) ∷ (b % 16 * 16 + c / 4) ∷ [])
bytes (a ∷ b ∷ c ∷ d ∷ ds) =
    before_all (a * 4 + b / 16) (b % 16 * 16 + c / 4) (c % 4 * 64 + d) (bytes ds)

abbrev pub decoded : Option (List ℕ) → Option (List ℕ)
decoded none = none
decoded (some ds) = bytes ds

unfoldable pub raw_url_decode : String → Option (List ℕ)
raw_url_decode s = decoded (digits s)

abbrev AreDigits : Option (List ℕ) → Type 0
AreDigits none = Unit
AreDigits (some ds) = All (λ d. d < 64) ds

digit_bound : (c d : ℕ) → digit c ≡ some d → d < 64
unfolding digit
digit_bound c d h = ground arith

before-AreDigits :
    (o : Option ℕ) (ds : Option (List ℕ))
    → ((d : ℕ) → o ≡ some d → d < 64)
    → AreDigits ds
    → AreDigits (before o ds)
before-AreDigits none ds h k = tt
before-AreDigits (some d) none h k = tt
before-AreDigits (some d) (some ds) h k = (h d refl, k)

digits-AreDigits : (s : String) → AreDigits (digits s)
unfolding digits
digits-AreDigits [] = tt
digits-AreDigits (c ∷ s) = elim (Bool-cases (code c == 10 || code c == 13)) [
  | inl e ↦ rw e (digits-AreDigits s)
  | inr e ↦
      rw e
        (before-AreDigits (digit (code c)) (digits s) (digit_bound (code c)) (digits-AreDigits s))
]

-- the items of a result are bytes
abbrev pub AreBytes : Option (List ℕ) → Type 0
AreBytes none = Unit
AreBytes (some bs) = All (λ b. b < 256) bs

before_all-AreBytes :
    (x y z : ℕ) (o : Option (List ℕ))
    → x < 256
    → y < 256
    → z < 256
    → AreBytes o
    → AreBytes (before_all x y z o)
before_all-AreBytes x y z none a b c h = tt
before_all-AreBytes x y z (some bs) a b c h = (a, (b, (c, h)))

bytes-AreBytes : (ds : List ℕ) → All (λ d. d < 64) ds → AreBytes (bytes ds)
unfolding bytes
bytes-AreBytes [] h = tt
bytes-AreBytes (a ∷ []) h = tt
bytes-AreBytes (a ∷ b ∷ []) (ha, (hb, t)) = (omega arith, tt)
bytes-AreBytes (a ∷ b ∷ c ∷ []) (ha, (hb, (hc, t))) = (omega arith, (omega arith, tt))
bytes-AreBytes (a ∷ b ∷ c ∷ d ∷ ds) (ha, (hb, (hc, (hd, t)))) =
    before_all-AreBytes _ _ _ (bytes ds) (omega arith) (omega arith) (omega arith)
      (bytes-AreBytes ds t)

decoded-AreBytes : (o : Option (List ℕ)) → AreDigits o → AreBytes (decoded o)
decoded-AreBytes none h = tt
decoded-AreBytes (some ds) h = bytes-AreBytes ds h

-- What is decoded is bytes.
pub raw_url_decode-AreBytes : (s : String) → AreBytes (raw_url_decode s)
unfolding raw_url_decode
raw_url_decode-AreBytes s = decoded-AreBytes (digits s) (digits-AreDigits s)
