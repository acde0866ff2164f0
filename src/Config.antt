-- ===== src/Config.antt =====
-- internal/config/config.go: the settings that the server reads from its environment.
pub mod Csv
pub mod Loaded
use open_aura.Prelude.{
  ℕ, ℤ, Option, none, some, String, List, [], ◌∷◌, Bool, is_nonpos, str_eq, if◌then◌else◌,
}
use open_aura.Text.{trim_space, split}
use open_aura.Effect.{Result, ok, err}
use open_aura.UserAuth.{TokenConfig}

-- `jwt_ttl` is in nanoseconds.
pub record Config : Type 0 where
  pub http_addr : String
  pub database_url : String
  pub bootstrap_admin_api_key : String
  pub jwt_secret : String
  pub jwt_issuer : String
  pub jwt_ttl : ℤ
  pub apple_client_ids : List String

-- the errors of Load
pub data ConfigError : Type 0 where
  missing : String → ConfigError
  bad_ttl : ConfigError
  nonpositive_ttl : ConfigError

-- os.Getenv, with "" for a variable that is not set, and time.ParseDuration in nanoseconds
pub record Settings : Type 0 where
  pub getenv : String → String
  pub parse_duration : String → Option ℤ

-- envOr
abbrev pub env_or : Settings → String → String → String
env_or e key fallback = if str_eq (e.getenv key) "" then fallback else e.getenv key

-- the loop of splitCSV
unfoldable pub kept_parts : List String → List String
kept_parts [] = []
kept_parts (p ∷ ps) =
    let rest = kept_parts ps in if str_eq (trim_space p) "" then rest else trim_space p ∷ rest

-- splitCSV
unfoldable pub split_csv : String → List String
unfolding kept_parts
split_csv raw = if str_eq (trim_space raw) "" then [] else kept_parts (split "," raw)

abbrev pub with_ttl : Settings → Option ℤ → Result ConfigError Config
with_ttl e none = err bad_ttl
with_ttl e (some ttl) =
    if is_nonpos ttl
    then err nonpositive_ttl
    else ok (record {
      http_addr = env_or e "HTTP_ADDR" ":8080";
      database_url = e.getenv "DATABASE_URL";
      bootstrap_admin_api_key = e.getenv "BOOTSTRAP_ADMIN_API_KEY";
      jwt_secret = e.getenv "JWT_SECRET";
      jwt_issuer = env_or e "JWT_ISSUER" "openaura";
      jwt_ttl = ttl;
      apple_client_ids = split_csv (e.getenv "APPLE_CLIENT_IDS");
    })

-- Load
unfoldable pub load : Settings → Result ConfigError Config
load e =
    if str_eq (e.getenv "DATABASE_URL") ""
    then err (missing "DATABASE_URL")
    else if str_eq (e.getenv "JWT_SECRET") ""
    then err (missing "JWT_SECRET")
    else with_ttl e (e.parse_duration (env_or e "JWT_TTL" "24h"))
