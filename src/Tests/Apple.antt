-- ===== src/Tests/Apple.antt =====
-- The theorems on the sign-in with Apple applied to a library that accepts a token.
use open_aura.Prelude.{◌≡◌, refl, some}
use open_aura.Effect
use open_aura.Jwks.{RsaKey, rsa_public_key_from_jwk}
use open_aura.Jwks.Base64.{raw_url_decode, digits, bytes}
use open_aura.Jwks.Keys.{IsKeyOf, rsa_public_key_from_jwk-IsKeyOf}
use open_aura.UserAuth.{AppleClaims}
use open_aura.Examples.Service.{sample_jwk}

sample_rsa : (key : RsaKey) × (rsa_public_key_from_jwk sample_jwk ≡ some key)
unfolding rsa_public_key_from_jwk raw_url_decode digits bytes
sample_rsa = (_, refl)

rsa_public_key_from_jwk-IsKeyOf_example :
    IsKeyOf (raw_url_decode sample_jwk.n) (raw_url_decode sample_jwk.e) sample_rsa.0
rsa_public_key_from_jwk-IsKeyOf_example =
    rsa_public_key_from_jwk-IsKeyOf sample_jwk sample_rsa.0 sample_rsa.1

abbrev sample_claims : AppleClaims
sample_claims = record { subject = "apple-1"; email = "ada@x" }
