-- ===== src/Start.antt =====
-- cmd/server/main.go, with internal/db: from the settings to the handler of the server.
pub mod Kept
pub mod Invariants
pub mod Bootstrap
pub mod Isolation
use open_aura.Prelude.{
  ℕ, Option, none, some, String, List, [], ◌∷◌, Bool, not, str_eq, if◌then◌else◌,
}
use open_aura.Store.{Err}
use open_aura.Effect
use open_aura.Effect.{Env, World, M, Result, ok, err, pure, raise, lift, map_err, ◌>>=◌, ◌>>◌, step}
use open_aura.Httpx.{Response}
use open_aura.Config.{Config, ConfigError, Settings, load}
use open_aura.AdminApiKey.Repository.{ensure_bootstrap_key}
use open_aura.UserAuth.{Jwt, TokenConfig, AppleVerifier}
use open_aura.UserAuth.Handler.{AuthHandler}
use open_aura.UserAuth.AppleKeys.{AppleLibrary, jwks_verifier}
use open_aura.Server.Gate.{new}
use open_aura.Server.{Incoming, Output, Codec, Parts}

-- What main prints before it exits.
pub data Fatal : Type 0 where
  config : ConfigError → Fatal
  connect_database : Fatal
  ping_database : Fatal
  bootstrap : Err → Fatal

-- The libraries and the surroundings: `new_pool` is pgxpool.New at an address, `ping` the pool's Ping.
pub record Surroundings : Type 0 where
  pub settings : Settings
  pub new_pool : String → Bool
  pub ping : ℕ → Bool
  pub jwt : Jwt
  pub apple_library : AppleLibrary
  pub codec : Codec
  pub documentation : Incoming → Response Output
  pub redirect_status : ℕ

-- Connect
unfoldable pub connect : Surroundings → String → M Fatal (Unit {0})
connect s database_url env w =
    if not (s.new_pool database_url)
    then (err connect_database, w)
    else if s.ping w.tick
    then (ok tt, step w)
    else (err ping_database, step w)

-- the key that is made sure of, when one is set
unfoldable pub ensure_key : String → M Fatal (Unit {0})
ensure_key raw =
    if str_eq raw "" then pure tt else map_err bootstrap (ensure_bootstrap_key raw "bootstrap")

abbrev pub token_config : Config → TokenConfig
token_config cfg = record { secret = cfg.jwt_secret; issuer = cfg.jwt_issuer; ttl = cfg.jwt_ttl }

-- the sign-in with Apple, when there are ids for it
abbrev pub with_apple : AppleLibrary → List String → Option AppleVerifier
with_apple lib [] = none
with_apple lib (id ∷ ids) = some (jwks_verifier lib (id ∷ ids))

-- what main gives to New
abbrev pub parts_of : Surroundings → Config → Parts
parts_of s cfg = record {
  auth = record {
    token = token_config cfg;
    jwt = s.jwt;
    apple = with_apple s.apple_library cfg.apple_client_ids;
  };
  codec = s.codec;
  documentation = s.documentation;
  redirect_status = s.redirect_status;
}

-- main, until it serves: the settings that it serves with
unfoldable pub start : Surroundings → M Fatal Config
unfolding connect ensure_key
start s = do
  cfg ← map_err config (lift (load s.settings))
  connect s cfg.database_url
  ensure_key cfg.bootstrap_admin_api_key
  pure cfg

-- the requests that the server answers, one after the other
unfoldable pub serve_all : Parts → List Incoming → Env → World → World
serve_all parts [] env w = w
serve_all parts (i ∷ is) env w = serve_all parts is env (new parts i env w).1

abbrev pub serve_with : Surroundings → List Incoming → Result Fatal Config → Env → World → World
serve_with s is (ok cfg) env w = serve_all (parts_of s cfg) is env w
serve_with s is (err e) env w = w

-- main, with the requests that come: the state at its end
unfoldable pub run : Surroundings → List Incoming → Env → World → World
run s is env w = let (r, w') = start s env w in serve_with s is r env w'
