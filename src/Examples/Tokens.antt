-- ===== src/Examples/Tokens.antt =====
-- A library of tokens to run the API with: a token is the text of its claims.
use Prim.Native.String.{[], ◌∷◌}
use open_aura.Prelude.{
  ℕ, zero, suc, ◌≡◌, refl, ap, ◌∙◌, subst, String, List, [], ◌∷◌, Option, none, some, Bool, true,
  code, ◌==◌, if◌then◌else◌, Char, length,
}
use open_aura.UserAuth.{Claims, Jwt}
use open_aura.UserAuth.Token.Issued.{IsJwt}

abbrev more : Char
more = "a"

abbrev last : Char
last = "b"

-- a text, with a mark before each letter and another one at its end
abbrev write_text : String → String → String
write_text [] rest = last ∷ rest
write_text (c ∷ s) rest = more ∷ (c ∷ write_text s rest)

abbrev onto : Char → String × String → String × String
onto c (s, rest) = (c ∷ s, rest)

abbrev read_text : String → String × String
read_text [] = ([], [])
read_text (m ∷ []) = ([], [])
read_text (m ∷ c ∷ s) =
    let later = read_text s in if code m == code more then onto c later else ([], c ∷ s)

read_text-write_text :
    (s : String) (c : Char) (rest : String) → read_text (write_text s (c ∷ rest)) ≡ (s, c ∷ rest)
read_text-write_text [] c rest = refl
read_text-write_text (x ∷ s) c rest = ap (onto x) (read_text-write_text s c rest)

-- a number, as that many letters
abbrev pub unary : ℕ → String
unary zero = []
unary (suc n) = more ∷ unary n

abbrev pub letters : String → ℕ
letters [] = 0
letters (c ∷ s) = suc (letters s)

pub letters-unary : (n : ℕ) → letters (unary n) ≡ n
letters-unary zero = refl
letters-unary (suc n) = ap suc (letters-unary n)

abbrev write_texts : List String → String
write_texts [] = last ∷ []
write_texts (s ∷ ss) = write_text s (write_texts ss)

abbrev read_texts : ℕ → String → List String
read_texts zero s = []
read_texts (suc n) s = let (t, rest) = read_text s in t ∷ read_texts n rest

read_text-write_texts :
    (s : String) (ss : List String)
    → read_text (write_text s (write_texts ss)) ≡ (s, write_texts ss)
read_text-write_texts s [] = read_text-write_text s last []
read_text-write_texts s ([] ∷ ss) = read_text-write_text s last (write_texts ss)
read_text-write_texts s ((c ∷ t) ∷ ss) =
    read_text-write_text s more (c ∷ write_text t (write_texts ss))

read_texts-write_texts : (ss : List String) → read_texts (length ss) (write_texts ss) ≡ ss
read_texts-write_texts [] = refl
read_texts-write_texts (s ∷ ss) = rw (read_text-write_texts s ss, read_texts-write_texts ss) refl

abbrev texts_of : Claims → List String
texts_of c =
    c.app_id ∷ c.email ∷ c.subject ∷ c.issuer ∷ unary c.issued_at ∷ unary c.expires_at ∷ c.id ∷ []

abbrev claims_of : List String → Option Claims
claims_of (app_id ∷ email ∷ subject ∷ issuer ∷ issued_at ∷ expires_at ∷ id ∷ ss) = some (record {
  app_id = app_id;
  email = email;
  subject = subject;
  issuer = issuer;
  issued_at = letters issued_at;
  expires_at = letters expires_at;
  id = id;
})
claims_of ss = none

abbrev valid : Option Claims → Option (Claims × Bool)
valid none = none
valid (some c) = some (c, true)

claims_of-texts_of : (c : Claims) → valid (claims_of (texts_of c)) ≡ some (c, true)
claims_of-texts_of c = rw (letters-unary c.issued_at, letters-unary c.expires_at) refl

abbrev pub sample_jwt : Jwt
sample_jwt = record {
  sign = λ secret c. some (write_texts (texts_of c));
  parse = λ key issuer algs t token. valid (claims_of (read_texts 7 token));
}

pub sample_jwt-IsJwt : IsJwt sample_jwt
sample_jwt-IsJwt = record {
  signs = λ secret c n. (write_texts (texts_of c), refl);
  verifies = λ key secret token t c signed k before.
      let e : write_texts (texts_of c) ≡ token = cc signed in
      subst (λ x. valid (claims_of (read_texts 7 x)) ≡ some (c, true)) e
        (ap (λ ss. valid (claims_of ss)) (read_texts-write_texts (texts_of c))
          ∙ claims_of-texts_of c);
}
