-- ===== src/UserAuth/Token.antt =====
-- internal/userauth/jwt.go
pub mod Issued
use open_aura.Prelude.{
  ℕ, zero, suc, ltb, leb, ◌-◌, ◌*◌, ◌%◌, ◌+◌, ◌/◌, ◌^◌, Option, none, some, String, [], ◌∷◌, Bool,
  pos_part, is_nonpos, str_eq, ◌||◌, if◌then◌else◌,
}
use open_aura.Schema.{User}
use open_aura.Store.{Err, internal}
use open_aura.Effect
use open_aura.Effect.{M, Result, ok, err, raise, pure, lift, drawn, step, asks, ◌>>=◌}
use open_aura.UserAuth.{Claims, Jwt, TokenConfig}

-- seconds of a time or a duration in nanoseconds
abbrev pub seconds : ℕ → ℕ
seconds n = n / 10 ^ 9

-- the greatest k with 2 ^ k ≤ n; 64 steps are enough for an int64
binade : ℕ → ℕ → ℕ
binade zero n = 0
binade (suc fuel) n = let rest = binade fuel (n / 2) in if ltb n 2 then 0 else rest + 1

-- int64(d.Seconds()): the conversion to float64 rounds the fraction of the last nanoseconds before a
-- full second up, when the number of seconds leaves too few of the 53 bits for it.
unfoldable pub whole_seconds : ℕ → ℕ
unfolding binade
whole_seconds d =
    let s = seconds d in
    let missing = 10 ^ 9 - d % 10 ^ 9 in
    if leb (missing * 2 ^ 54) (10 ^ 9 * (2 ^ (binade 64 s + 1) + 1)) then s + 1 else s

-- uuid.NewString()
unfoldable pub new_string : M Err String
new_string env w = (ok (env.uuid_v4 w.tick), step w)

-- issueToken: the signed token and its lifetime in seconds
unfoldable pub issue_token : Jwt → TokenConfig → User → M Err (String × ℕ)
unfolding new_string whole_seconds
issue_token jwt cfg u = if str_eq cfg.secret "" || is_nonpos cfg.ttl then raise internal else do
  t ← Effect.now
  id ← new_string
  uuid_string ← asks (λ env. env.uuid_string)
  let claims : Claims = record {
    app_id = uuid_string u.app_id;
    email = u.email;
    subject = uuid_string u.id;
    issuer = cfg.issuer;
    issued_at = seconds t;
    expires_at = seconds (t + pos_part cfg.ttl);
    id = id;
  }
  signed ← lift (drawn (jwt.sign cfg.secret claims))
  pure (signed, whole_seconds (pos_part cfg.ttl))

-- the key for the algorithm of a token's header
abbrev pub key_for : String → String → Option String
key_for secret alg = if str_eq alg "HS256" then some secret else none

abbrev valid_claims : Option (Claims × Bool) → Result Err Claims
valid_claims none = err internal
valid_claims (some (c, valid)) = if valid then ok c else err internal

-- ParseToken
unfoldable pub parse_token : Jwt → TokenConfig → String → M Err Claims
parse_token jwt cfg raw = do
  t ← Effect.now
  lift (valid_claims (jwt.parse (key_for cfg.secret) cfg.issuer ("HS256" ∷ []) t raw))
