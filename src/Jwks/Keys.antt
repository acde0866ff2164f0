-- ===== src/Jwks/Keys.antt =====
-- The keys that refreshKeys takes from a set.
use open_aura.Prelude.{ℕ, ◌%◌, ◌^◌, ◌≡◌, refl, Option, none, some, List, [], ◌∷◌, arith}
use open_aura.Jwks.{Jwk, RsaKey, key_of_bytes, rsa_public_key_from_jwk}
use open_aura.Jwks.Base64.{raw_url_decode, raw_url_decode-AreBytes, AreBytes}
use open_aura.Jwks.Exponent.{big_endian, to_int, exponent_lem}

-- the numbers of a key, over the bytes that it is made of
abbrev pub IsKeyOf : Option (List ℕ) → Option (List ℕ) → RsaKey → Type 0
IsKeyOf n e key =
    (ns : List ℕ) × (es : List ℕ) × (n ≡ some ns)
    × (e ≡ some es)
    × (key.modulus ≡ big_endian ns)
    × (key.exponent ≡ to_int (big_endian es % 2 ^ 64))

key_of_bytes-IsKeyOf :
    (n e : Option (List ℕ)) (key : RsaKey)
    → AreBytes e
    → key_of_bytes n e ≡ some key
    → IsKeyOf n e key
key_of_bytes-IsKeyOf none e key b h = cc
key_of_bytes-IsKeyOf (some []) none key b h = cc
key_of_bytes-IsKeyOf (some []) (some e) key b h = cc
key_of_bytes-IsKeyOf (some (x ∷ n)) none key b h = cc
key_of_bytes-IsKeyOf (some (x ∷ n)) (some []) key b h = cc
key_of_bytes-IsKeyOf (some (x ∷ n)) (some (y ∷ e)) key b h =
    (x ∷ n, y ∷ e, refl, refl, ground arith, ground (arith, exponent_lem (y ∷ e) b))

-- A key that is accepted is made of the bytes that its texts decode to: the modulus is their big-endian
-- value, and the exponent is theirs wrapped around at 64 bits and read with a sign.
pub rsa_public_key_from_jwk-IsKeyOf :
    (jwk : Jwk) (key : RsaKey)
    → rsa_public_key_from_jwk jwk ≡ some key
    → IsKeyOf (raw_url_decode jwk.n) (raw_url_decode jwk.e) key
unfolding rsa_public_key_from_jwk
rsa_public_key_from_jwk-IsKeyOf jwk key h =
    key_of_bytes-IsKeyOf _ _ key (raw_url_decode-AreBytes jwk.e) h
