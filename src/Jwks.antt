-- ===== src/Jwks.antt =====
-- internal/userauth/apple_jwks.go: Apple's keys, without the calls that leave the program.
pub mod Base64
pub mod Exponent
pub mod Keys
use open_aura.Prelude.{
  ℕ, ◌+◌, ◌-◌, ◌*◌, ◌^◌, Option, none, some, String, List, [], ◌∷◌, Bool, true, false, not, ◌||◌,
  any, map, filter, ltb, str_eq, if◌then◌else◌, ℤ,
}
use open_aura.Text.{trim_space}
use open_aura.Jwks.Base64.{raw_url_decode}
use open_aura.Jwks.Exponent.{exponent, big_endian}

-- appleJWK, and the keys of an appleJWKSet
pub record Jwk : Type 0 where
  pub kty : String
  pub kid : String
  pub n : String
  pub e : String

-- rsa.PublicKey
pub record RsaKey : Type 0 where
  pub modulus : ℕ
  pub exponent : ℤ

-- the fields `keys` and `fetched` of JWKSAppleVerifier; the first entry for a key is the one that counts
pub record KeyCache : Type 0 where
  pub keys : Option (List (String × RsaKey))
  pub fetched : ℕ

-- as NewJWKSAppleVerifier leaves it
abbrev pub no_keys : KeyCache
no_keys = record { keys = none; fetched = 0 }

-- appleJWKSTTL, in nanoseconds
abbrev pub apple_jwks_ttl : ℕ
apple_jwks_ttl = 600 * 10 ^ 9

-- v.keys[kid]
unfoldable pub key_of : String → List (String × RsaKey) → Option RsaKey
key_of kid [] = none
key_of kid ((k, key) ∷ keys) = if str_eq k kid then some key else key_of kid keys

-- cachedKey, at the time `now`
unfoldable pub cached_key : KeyCache → ℕ → String → Option RsaKey
cached_key c now kid = elim c.keys [
  | none ↦ none
  | some keys ↦ if ltb apple_jwks_ttl (now - c.fetched) then none else key_of kid keys
]

-- the key of two texts that are decoded
abbrev pub key_of_bytes : Option (List ℕ) → Option (List ℕ) → Option RsaKey
key_of_bytes none e = none
key_of_bytes (some n) none = none
key_of_bytes (some []) (some e) = none
key_of_bytes (some (b ∷ n)) (some []) = none
key_of_bytes (some (b ∷ n)) (some (c ∷ e)) =
    some (record { modulus = big_endian (b ∷ n); exponent = exponent (c ∷ e) })

-- rsaPublicKeyFromJWK; `none` is its error
unfoldable pub rsa_public_key_from_jwk : Jwk → Option RsaKey
rsa_public_key_from_jwk jwk = key_of_bytes (raw_url_decode jwk.n) (raw_url_decode jwk.e)

-- the loop of refreshKeys over the keys of a set, on the map that it fills
unfoldable pub collect_keys : List Jwk → List (String × RsaKey) → Option (List (String × RsaKey))
collect_keys [] keys = some keys
collect_keys (jwk ∷ set) keys =
    if not (str_eq jwk.kty "RSA") || str_eq jwk.kid ""
    then collect_keys set keys
    else elim (rsa_public_key_from_jwk jwk) [
      | none ↦ none
      | some pub_key ↦ collect_keys set ((jwk.kid, pub_key) ∷ keys)
    ]

-- audienceAllowed
unfoldable pub audience_allowed : List String → List String → Bool
audience_allowed aud client_ids =
    let allowed = filter (λ id. not (str_eq id "")) (map trim_space client_ids) in
    any (λ a. any (λ id. str_eq id (trim_space a)) allowed) aud
