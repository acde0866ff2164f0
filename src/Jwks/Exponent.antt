-- ===== src/Jwks/Exponent.antt =====
-- The integers of rsaPublicKeyFromJWK: the exponent is a 64-bit int, the modulus a big.Int.
use open_aura.Prelude.{
  ℕ, ◌+◌, ◌-◌, ◌*◌, ◌^◌, ◌%◌, ◌<◌, ◌≡◌, refl, List, [], ◌∷◌, ltb, ℤ, pos, negsuc, arith, All,
  if◌then◌else◌,
}

-- big.Int.SetBytes
unfoldable pub big_endian_from : ℕ → List ℕ → ℕ
big_endian_from n [] = n
big_endian_from n (b ∷ bs) = big_endian_from (n * 256 + b) bs

unfoldable pub big_endian : List ℕ → ℕ
unfolding big_endian_from
big_endian bs = big_endian_from 0 bs

-- the bits of a 64-bit word as an int
unfoldable pub to_int : ℕ → ℤ
to_int w = if ltb w (2 ^ 63) then pos w else negsuc (2 ^ 64 - 1 - w)

-- `for _, b := range eBytes { e = e<<8 | int(b) }`, on the bits of e; the shift leaves 8 bits free
unfoldable pub shift_in : ℕ → List ℕ → ℕ
shift_in e [] = e
shift_in e (b ∷ bs) = shift_in ((e * 256 % 2 ^ 64) + b) bs

unfoldable pub exponent : List ℕ → ℤ
unfolding shift_in to_int
exponent bs = to_int (shift_in 0 bs)

shift_in_lem :
    (bs : List ℕ) (n : ℕ)
    → All (λ b. b < 256) bs
    → shift_in (n % 2 ^ 64) bs ≡ big_endian_from n bs % 2 ^ 64
unfolding shift_in big_endian_from
shift_in_lem [] n h = refl
shift_in_lem (b ∷ bs) n h =
    let e : (n % 2 ^ 64) * 256 % 2 ^ 64 + b ≡ (n * 256 + b) % 2 ^ 64 = omega (arith, h.0) in
    rw e (shift_in_lem bs (n * 256 + b) h.1)

-- The bits of the exponent are the big-endian value of the bytes, modulo 2^64.
pub exponent_lem :
    (bs : List ℕ) → All (λ b. b < 256) bs → exponent bs ≡ to_int (big_endian bs % 2 ^ 64)
unfolding exponent big_endian
exponent_lem bs h = rw (shift_in_lem bs 0 h)
