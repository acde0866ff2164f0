-- ===== src/Examples/Service.antt =====
-- A server to send requests to: its settings, its libraries, and a database with two apps.
use open_aura.Prelude.{◌^◌, String, List, [], ◌∷◌, none, some, true, str_eq, if◌then◌else◌, pos}
use open_aura.Json.{absent}
use open_aura.Schema.{App, ApiKeyRow}
use open_aura.Effect.{Env, World, ok}
use open_aura.Httpx.{write_json}
use open_aura.Jwks.{Jwk, no_keys}
use open_aura.UserAuth.AppleKeys.{AppleLibrary, reply}
use open_aura.Config.{Config, Settings}
use open_aura.Server.{Incoming, Codec, plain}
use open_aura.Start.{Surroundings}
use open_aura.Examples.{quiet, sample_db, sample_app, sample_key}
use open_aura.Examples.Tokens.{sample_jwt, unary, letters}

-- identifiers that are printed so that they can be read again
abbrev pub printing : Env
printing = record quiet { parse_uuid = λ s. some (letters s); uuid_string = unary }

abbrev other_app : App
other_app = record sample_app { id = 2; name = "blog" }

abbrev other_key : ApiKeyRow
other_key = record sample_key { id = 10; app_id = 2; key_hash = "oa_app_2" }

abbrev pub two_apps : World
two_apps = record {
  db = record sample_db {
    apps = sample_app ∷ other_app ∷ [];
    api_keys = sample_key ∷ other_key ∷ [];
  };
  apple_keys = no_keys;
  tick = 0;
}

abbrev pub sample_settings : Settings
sample_settings = record {
  getenv = λ key.
      if str_eq key "DATABASE_URL"
      then "postgres://db"
      else if str_eq key "JWT_SECRET"
      then "secret"
      else if str_eq key "BOOTSTRAP_ADMIN_API_KEY"
      then "oa_admin_1"
      else if str_eq key "APPLE_CLIENT_IDS"
      then "app.one"
      else "";
  parse_duration = λ s. some (pos (10 ^ 12));
}

abbrev pub sample_config : Config
sample_config = record {
  http_addr = ":8080";
  database_url = "postgres://db";
  bootstrap_admin_api_key = "oa_admin_1";
  jwt_secret = "secret";
  jwt_issuer = "openaura";
  jwt_ttl = pos (10 ^ 12);
  apple_client_ids = "app.one" ∷ [];
}

-- the one key of Apple's set
abbrev pub sample_jwk : Jwk
sample_jwk = record { kty = "RSA"; kid = "k1"; n = "AQAB"; e = "AQAB" }

-- Every token names that key and is signed with it.
abbrev pub sample_apple : AppleLibrary
sample_apple = record {
  http_get = λ n url. reply 200 (some []);
  unmarshal = λ body. some (sample_jwk ∷ []);
  header = λ algs token. ok ("RS256", "k1");
  check = λ key issuer t token.
      ok (record { subject = "apple-1"; email = "ada@x"; audience = "app.one" ∷ [] }, true);
  key_error = λ e. "";
}

abbrev no_bodies : Codec
no_bodies = record {
  create_app = λ s. some (record { name = s; metadata = absent });
  update_app = λ s. none;
  create_user = λ s. some (record { email = s; metadata = absent });
  update_user = λ s. none;
  create_tenant = λ s. some (record { metadata = absent });
  update_tenant = λ s. none;
  create_role = λ s. some (record { metadata = absent });
  update_role = λ s. none;
  create_permission = λ s. none;
  create_role_assignment = λ s. none;
  update_role_assignment = λ s. none;
  create_resource = λ s. none;
  update_resource = λ s. none;
  create_action = λ s. none;
  update_action = λ s. none;
  create_api_key = λ s. some (record { name = none; metadata = absent });
  create_admin_api_key = λ s. some (record { name = none });
  register = λ s. some (record { email = s; password = "12345678"; metadata = absent });
  login = λ s. some (record { email = s; password = "12345678" });
  apple = λ s. some (record { identity_token = s; email = ""; metadata = absent });
  check = λ s. none;
}

abbrev pub sample_service : Surroundings
sample_service = record {
  settings = sample_settings;
  new_pool = λ url. true;
  ping = λ n. true;
  jwt = sample_jwt;
  apple_library = sample_apple;
  codec = no_bodies;
  documentation = λ i. write_json 200 (plain "docs");
  redirect_status = 301;
}

-- a request with a key, a path and a body
abbrev pub request_with : String → String → List String → String → Incoming
request_with key method path body = record {
  method = method;
  path = path;
  header = λ name.
      if str_eq name "X-API-Key" then key else if str_eq name "X-API-Version" then "1" else "";
  query = λ name. "";
  body = body;
}

abbrev pub sample_requests : List Incoming
sample_requests =
    request_with "oa_app_2" "POST" ("tenants" ∷ []) ""
    ∷ request_with "oa_app_2" "POST" ("users" ∷ []) "bob@x"
    ∷ request_with "oa_app_2" "POST" ("auth" ∷ "register" ∷ []) "eve@x"
    ∷ request_with "oa_app_2" "DELETE" ("users" ∷ "aaa" ∷ []) ""
    ∷ []
