-- ===== src/UserAuth/AppleKeys/Trust.antt =====
-- The tokens that Verify of apple_jwks.go accepts.
use open_aura.Prelude.{ℕ, ◌≤◌, ◌<◌, ◌≡◌, String, [], ◌∷◌, Bool, true, false, str_eq}
use open_aura.Text.{trim_space}
use open_aura.Jwks.{RsaKey, audience_allowed}
use open_aura.Effect
use open_aura.Effect.{Env, World, M, Result, ok, err, map_err, lift, step}
use open_aura.UserAuth.{AppleClaims}
use open_aura.UserAuth.AppleKeys.{
  IdTokenClaims, AppleLibrary, JwksAppleVerifier, apple_issuer, url_or_default,
}
use open_aura.UserAuth.AppleKeys.Served.{IsServed}
use open_aura.UserAuth.AppleKeys.Audience.{IsForClient}
use open_aura.UserAuth.AppleKeys.Current.{IsCurrent}

module _ (lib : AppleLibrary) (v : JwksAppleVerifier) (env : Env) where
  -- Why a token was accepted.
  pub record IsTrusted (raw : String) (claims : AppleClaims) (w w' : World) : Type 0 where
    pub kid : String
    pub key : RsaKey
    pub parsed : IdTokenClaims
    pub tick : ℕ
    -- the token names a key that Apple's set contained, and that is current
    pub named : lib.header ("RS256" ∷ []) (trim_space raw) ≡ ok ("RS256", kid)
    pub served : IsServed lib (url_or_default v) (kid, key)
    pub current : IsCurrent lib v env kid key w.tick w'
    -- the library has checked the signature, the issuer and the dates with that key, at a moment of the
    -- call
    pub not_before : w.tick ≤ tick
    pub not_after : tick < w'.tick
    pub checked : lib.check key apple_issuer (env.now tick) (trim_space raw) ≡ ok (parsed, true)
    pub audience : IsForClient parsed.audience v.client_ids
    pub subject : claims.subject ≡ trim_space parsed.subject
    pub not_blank : str_eq claims.subject "" ≡ false
    pub email : claims.email ≡ trim_space parsed.email

  -- what the tests of Verify after the parsing have passed
  record IsAccepted (claims : AppleClaims) (parsed : IdTokenClaims × Bool) (w w' : World)
      : Type 0 where
    valid : parsed.1 ≡ true
    audience : audience_allowed parsed.0.audience v.client_ids ≡ true
    subject : claims.subject ≡ trim_space parsed.0.subject
    not_blank : str_eq claims.subject "" ≡ false
    email : claims.email ≡ trim_space parsed.0.email
    same : w ≡ w'

  -- the token was checked with a current key
  record IsParsed (token : String) (parsed : IdTokenClaims × Bool) (w w' : World) : Type 0 where
    kid : String
    key : RsaKey
    tick : ℕ
    named : lib.header ("RS256" ∷ []) token ≡ ok ("RS256", kid)
    current : IsCurrent lib v env kid key w.tick w'
    not_before : w.tick ≤ tick
    not_after : tick < w'.tick
    checked : lib.check key apple_issuer (env.now tick) token ≡ ok parsed
