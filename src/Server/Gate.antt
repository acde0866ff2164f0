-- ===== src/Server/Gate.antt =====
-- New of internal/httpserver/server.go: the version of the API, the keys, and the log.

use open_aura.Prelude.{
  ℕ, ◌-◌, String, List, [], ◌∷◌, Bool, false, ◌&&◌, none, str_eq, if◌then◌else◌,
}
use open_aura.Effect.{Env, World, pure, raise, step}
use open_aura.Httpx.{Request, Response, Handler, write_json, write_error, serve}
use open_aura.Auth.{resolve_app_key, resolve_admin_key}
use open_aura.ApiKey.Repository as ApiKeys
use open_aura.AdminApiKey.Repository as AdminKeys
use open_aura.Server.{Incoming, Output, Parts, healthy, moved}
use open_aura.Server.Mux.{serve_mux, takes}
use open_aura.Server.Routes.{admin_routes, app_routes}

-- the request that a handler sees, before the middlewares
abbrev pub request_of : Incoming → Request
request_of i = record {
  ctx = record { app_id = none; admin = false };
  header = i.header;
  path_value = λ name. "";
  query = i.query;
}

-- requireAPIVersion
unfoldable pub require_api_version : (Incoming → Handler Output) → Incoming → Handler Output
require_api_version next i =
    let version = i.header "X-API-Version" in
    if str_eq version ""
    then raise (write_error 400 "X-API-Version header is required")
    else if str_eq version "1"
    then next i
    else raise (write_error 406 "unsupported API version")

-- a path below a part
abbrev pub is_below : String → List String → Bool
is_below part [] = false
is_below part (x ∷ []) = false
is_below part (x ∷ y ∷ path) = str_eq x part

abbrev pub is_exactly : String → List String → Bool
is_exactly part [] = false
is_exactly part (x ∷ []) = str_eq x part
is_exactly part (x ∷ y ∷ path) = false

-- the redirect of a multiplexer that has a pattern for the path with a slash at its end
unfoldable pub redirect : Parts → String → Handler Output
redirect parts target = pure (write_json parts.redirect_status (moved target))

-- the handler behind ResolveAdminKey
unfoldable pub admin_api : Parts → Incoming → Handler Output
admin_api parts i =
    resolve_admin_key AdminKeys.admin_key_exists (serve_mux (admin_routes parts) i) (request_of i)

-- the handler behind ResolveAppKey
unfoldable pub app_api : Parts → Incoming → Handler Output
app_api parts i =
    resolve_app_key ApiKeys.resolve_app_id_by_key_hash (serve_mux (app_routes parts) i)
      (request_of i)

-- the multiplexer `versioned`
unfoldable pub versioned : Parts → Incoming → Handler Output
versioned parts i =
    if is_below "admin" i.path
    then admin_api parts i
    else if is_exactly "admin" i.path
    then redirect parts "/admin/"
    else app_api parts i

-- the outer multiplexer
unfoldable pub serve_http : Parts → Incoming → Handler Output
serve_http parts i =
    if takes "GET" i.method && is_exactly "healthz" i.path
    then pure (write_json 200 healthy)
    else if is_below "swagger" i.path
    then pure (parts.documentation i)
    else if is_exactly "swagger" i.path
    then redirect parts "/swagger/"
    else require_api_version (versioned parts) i

-- a line of the log
pub record LogLine : Type 0 where
  pub method : String
  pub path : List String
  pub status : ℕ
  pub nanoseconds : ℕ

-- withLogging: the server's handler with its reply, its line in the log and the state that it leaves
unfoldable pub with_logging :
    Handler Output → Incoming → Env → World → (Response Output × LogLine) × World
with_logging next i env w =
    let start = env.now w.tick in
    let (reply, w') = serve next env (step w) in
    (
      (
        reply,
        record {
          method = i.method;
          path = i.path;
          status = reply.status;
          nanoseconds = env.now w'.tick - start;
        },
      ),
      step w',
    )

-- New
unfoldable pub new : Parts → Incoming → Env → World → (Response Output × LogLine) × World
new parts i = with_logging (serve_http parts i) i
