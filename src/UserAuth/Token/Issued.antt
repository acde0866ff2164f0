-- ===== src/UserAuth/Token/Issued.antt =====
-- Tokens from issueToken to ParseToken of internal/userauth/jwt.go.
use open_aura.Prelude.{
  ℕ, ◌+◌, ◌/◌, ◌^◌, ◌≤◌, ◌<◌, ◌≡◌, refl, Option, some, String, [], ◌∷◌, true, false, arith,
  pos_part, is_nonpos, str_eq,
}
use open_aura.Schema.{User}
use open_aura.Effect
use open_aura.Effect.{Env, World, Result, ok, err, ◌>>=◌, drawn}
use open_aura.UserAuth.{Claims, Jwt, TokenConfig}
use open_aura.UserAuth.Token.{seconds, whole_seconds, issue_token, parse_token, key_for, new_string}
use open_aura.Config.{Config, Settings, load}
use open_aura.Config.Loaded.{load-IsUsable}
use open_aura.Start.{token_config}

-- What golang-jwt documents: HS256 signs with every secret that is not blank, and what it signed is
-- valid under the same secret, for its issuer and before it expires.
pub record IsJwt (jwt : Jwt) : Type 0 where
  pub signs :
      (secret : String) (c : Claims)
      → str_eq secret "" ≡ false
      → (token : String) × (jwt.sign secret c ≡ some token)
  pub verifies :
      (key : String → Option String) (secret token : String) (t : ℕ) (c : Claims)
      → jwt.sign secret c ≡ some token
      → key "HS256" ≡ some secret
      → t / 10 ^ 9 < c.expires_at
      → jwt.parse key c.issuer ("HS256" ∷ []) t token ≡ some (c, true)

-- The claims of the user.
pub record IsOf (env : Env) (u : User) (c : Claims) : Type 0 where
  pub subject : c.subject ≡ env.uuid_string u.id
  pub app_id : c.app_id ≡ env.uuid_string u.app_id
  pub email : c.email ≡ u.email

module _ (jwt : Jwt) (cfg : TokenConfig) (u : User) (env : Env) (w : World) where
  abbrev issued_claims : Claims
  issued_claims = record {
    app_id = env.uuid_string u.app_id;
    email = u.email;
    subject = env.uuid_string u.id;
    issuer = cfg.issuer;
    issued_at = seconds (env.now w.tick);
    expires_at = seconds (env.now w.tick + pos_part cfg.ttl);
    id = env.uuid_v4 (w.tick + 1);
  }

  issue_token_runs :
      (token : String)
      → str_eq cfg.secret "" ≡ false
      → is_nonpos cfg.ttl ≡ false
      → jwt.sign cfg.secret issued_claims ≡ some token
      → (issue_token jwt cfg u env w).0 ≡ ok (token, whole_seconds (pos_part cfg.ttl))
  unfolding issue_token new_string ◌>>=◌ Effect.now
  issue_token_runs token a b h = rw (a, b, h) refl

module _ (jwt : Jwt) (cfg : TokenConfig) (env : Env) (w : World) where
  parse_token_runs :
      (token : String) (c : Claims)
      → jwt.parse (key_for cfg.secret) cfg.issuer ("HS256" ∷ []) (env.now w.tick) token
        ≡ some (c, true)
      → (parse_token jwt cfg token env w).0 ≡ ok c
  unfolding parse_token ◌>>=◌ Effect.now
  parse_token_runs token c h = rw h refl

-- With settings that Load accepts, every user gets a token, and until one second before the end of its
-- lifetime ParseToken reads the user's id, app and email back from it, if the JWT library verifies
-- what it signed.
pub issue_token-parse_token :
    (s : Settings) (cfg : Config) (jwt : Jwt) (u : User) (env : Env) (w w' : World)
    → load s ≡ ok cfg
    → IsJwt jwt
    → env.now w'.tick + 10 ^ 9 ≤ env.now w.tick + pos_part cfg.jwt_ttl
    → (token : String) × (c : Claims) × ((issue_token jwt (token_config cfg) u env w).0
        ≡ ok (token, whole_seconds (pos_part cfg.jwt_ttl)))
      × ((parse_token jwt (token_config cfg) token env w').0 ≡ ok c)
      × IsOf env u c
issue_token-parse_token s cfg jwt u env w w' h laws before =
    let usable = load-IsUsable s cfg h in
    let claims = issued_claims jwt (token_config cfg) u env w in
    let (token, signed) = laws.signs cfg.jwt_secret claims usable.secret in
    (
      token,
      claims,
      issue_token_runs jwt (token_config cfg) u env w token usable.secret usable.lifetime signed,
      parse_token_runs jwt (token_config cfg) env w' token claims (
          laws.verifies (key_for cfg.jwt_secret) cfg.jwt_secret token (env.now w'.tick) claims
            signed refl (omega (arith, before))),
      record { subject = refl; app_id = refl; email = refl },
    )
