-- ===== src/UserAuth/AppleKeys/Kept.antt =====
-- The verifier of Apple's tokens writes its cache and leaves the database alone.
use open_aura.Prelude.{Option, none, some, String, List, Bool}
use open_aura.Schema.{Db}
use open_aura.Jwks.{RsaKey}
use open_aura.Effect.Keeps.{Keeps, keeps_rules, Keeps-pure}
use open_aura.UserAuth.Apple.{apple_subject}
use open_aura.UserAuth.AppleKeys.{
  AppleLibrary, JwksAppleVerifier, IdTokenClaims, look_up, fetch, store_keys, refresh_keys,
  refreshed_key, or_refreshed, key_for_kid, key_function, parse_with_claims, accept, verify,
}

module _ (P : Db → Type 0) (lib : AppleLibrary) (v : JwksAppleVerifier) where
  Keeps-look_up : (kid : String) → Keeps P (look_up kid)
  unfolding look_up
  Keeps-look_up kid = record { at = λ env st w p. p }

  Keeps-fetch : (url : String) → Keeps P (fetch lib url)
  unfolding fetch
  Keeps-fetch url = record { at = λ env st w p. p }

  Keeps-store_keys : (keys : List (String × RsaKey)) → Keeps P (store_keys keys)
  unfolding store_keys
  Keeps-store_keys keys = record { at = λ env st w p. p }

  Keeps-refresh_keys : Keeps P (refresh_keys lib v)
  unfolding refresh_keys
  Keeps-refresh_keys = search (keeps_rules, Keeps-fetch, Keeps-store_keys) depth 12

  Keeps-refreshed_key : (kid : String) → Keeps P (refreshed_key lib v kid)
  unfolding refreshed_key
  Keeps-refreshed_key kid = search (keeps_rules, Keeps-refresh_keys, Keeps-look_up) depth 12

  Keeps-or_refreshed :
      (kid : String) (known : Option RsaKey) → Keeps P (or_refreshed lib v kid known)
  Keeps-or_refreshed kid none = Keeps-refreshed_key kid
  Keeps-or_refreshed kid (some key) = Keeps-pure key

  Keeps-key_for_kid : (kid : String) → Keeps P (key_for_kid lib v kid)
  unfolding key_for_kid
  Keeps-key_for_kid kid = search (keeps_rules, Keeps-look_up, Keeps-or_refreshed) depth 8

  Keeps-key_function : (header : String × String) → Keeps P (key_function lib v header)
  unfolding key_function
  Keeps-key_function (alg, kid) = search (keeps_rules, Keeps-key_for_kid) depth 8

  Keeps-parse_with_claims : (token : String) → Keeps P (parse_with_claims lib v token)
  unfolding parse_with_claims
  Keeps-parse_with_claims token = search (keeps_rules, Keeps-key_function) depth 16

  Keeps-apple_subject : (raw : String) → Keeps P (apple_subject raw)
  unfolding apple_subject
  Keeps-apple_subject raw = search keeps_rules depth 8

  Keeps-accept : (parsed : IdTokenClaims × Bool) → Keeps P (accept v parsed)
  unfolding accept
  Keeps-accept (claims, valid) = search (keeps_rules, Keeps-apple_subject) depth 8

  pub Keeps-verify : (token : String) → Keeps P (verify lib v token)
  unfolding verify
  Keeps-verify token = search (keeps_rules, Keeps-parse_with_claims, Keeps-accept) depth 8
