-- ===== src/UserAuth/Apple.antt =====
-- internal/userauth/apple.go
use open_aura.Prelude.{String, List, [], ◌∷◌, Option, none, some, str_eq, if◌then◌else◌}
use open_aura.Text.{trim_space}
use open_aura.Store.{Err, apple_email_required, invalid_apple_token, apple_not_configured}
use open_aura.Effect.{M, raise, pure}
use open_aura.UserAuth.{AppleClaims}

-- normalizeAppleEmail
unfoldable pub normalize_apple_email : String → String → M Err String
normalize_apple_email token_email body_email =
    let email = trim_space token_email in
    let email' = if str_eq email "" then trim_space body_email else email in
    if str_eq email' "" then raise apple_email_required else pure email'

-- appleSubject
unfoldable pub apple_subject : String → M Err String
apple_subject raw =
    let subject = trim_space raw in
    if str_eq subject "" then raise (invalid_apple_token ": missing sub") else pure subject

-- StaticAppleVerifier; the first entry for a token is the one that counts
pub record StaticAppleVerifier : Type 0 where
  pub tokens : List (String × AppleClaims)

-- NewStaticAppleVerifier
abbrev pub new_static_apple_verifier : StaticAppleVerifier
new_static_apple_verifier = record { tokens = [] }

-- Allow
unfoldable pub allow : StaticAppleVerifier → String → AppleClaims → StaticAppleVerifier
allow s identity_token claims = record { tokens = (identity_token, claims) ∷ s.tokens }

abbrev pub claims_for : String → List (String × AppleClaims) → Option AppleClaims
claims_for identity_token [] = none
claims_for identity_token ((t, c) ∷ tokens) =
    let rest = claims_for identity_token tokens in if str_eq t identity_token then some c else rest

abbrev pub given_claims : Option AppleClaims → M Err AppleClaims
given_claims none = raise (invalid_apple_token "")
given_claims (some claims) =
    if str_eq (trim_space claims.subject) "" then raise (invalid_apple_token "") else pure claims

-- Verify of StaticAppleVerifier, whose receiver may be nil
unfoldable pub static_verify : Option StaticAppleVerifier → String → M Err AppleClaims
static_verify none identity_token = raise apple_not_configured
static_verify (some s) identity_token = given_claims (claims_for identity_token s.tokens)
