-- ===== src/Auth.antt =====
-- internal/auth: API keys, the two middlewares and the authenticated app of a request.
use open_aura.Prelude.{Option, none, some, String, Bool, true, not, str_eq, if◌then◌else◌}
use Prim.Native.String.{◌++◌}
use open_aura.Text.{trim_space, to_lower, has_prefix, drop_bytes}
use open_aura.Schema.{Uuid}
use open_aura.Store.{Err, not_found}
use open_aura.Effect
use open_aura.Effect.{Env, World, Result, ok, err, M, pure, raise, ◌>>=◌, random_hex}
use open_aura.Httpx.{Request, Context, Response, Handler, write_error}

-- WithAppID
unfoldable pub with_app_id : Request → String → Request
with_app_id r app = record r { ctx = record { app_id = some app; admin = r.ctx.admin } }

-- AppID
unfoldable pub app_id : Context → Option String
app_id c = elim c.app_id [ none ↦ none | some v ↦ if str_eq v "" then none else some v ]

-- WithAdmin
unfoldable pub with_admin : Request → Request
with_admin r = record r { ctx = record { app_id = r.ctx.app_id; admin = true } }

-- IsAdmin
unfoldable pub is_admin : Context → Bool
is_admin c = c.admin

-- HashAPIKey
abbrev pub hash_api_key : Env → String → String
hash_api_key env raw = env.sha256_hex raw

-- NewAPIKey
unfoldable pub new_api_key : String → M Err String
new_api_key prefix = do b ← random_hex; pure (prefix ++ ("_" ++ b))

bearer_key : Env → String → Option String
bearer_key env authz =
    if has_prefix (to_lower env.unicode_lower authz) "bearer "
    then (let v = trim_space (drop_bytes 7 authz) in if str_eq v "" then none else some v)
    else none

-- rawAPIKey
unfoldable pub raw_api_key : Env → Request → Option String
unfolding bearer_key
raw_api_key env r =
    let v = trim_space (r.header "X-API-Key") in
    if not (str_eq v "") then some v else bearer_key env (r.header "Authorization")

unfoldable pub app_key_error : {A : Type 0} → Err → Response A
app_key_error not_found = write_error 401 "invalid api key"
app_key_error e = write_error 500 "internal server error"

unfoldable pub require_raw_key : {A : Type 0} → Request → M (Response A) String
require_raw_key r env w = elim (raw_api_key env r) [
  | none ↦ (err (write_error 401 "X-API-Key header is required"), w)
  | some raw ↦ (ok raw, w)
]

module _ {A : Type 0} where
  -- ResolveAppKey, over the lookup that it is given (AppKeyLookup)
  unfoldable pub resolve_app_key :
      (String → M Err Uuid) → (Request → Handler A) → Request → Handler A
  unfolding require_raw_key app_key_error
  resolve_app_key lookup next r = do
    raw ← require_raw_key r
    env ← Effect.asks (λ env. env)
    app ← Effect.map_err app_key_error (lookup (hash_api_key env raw))
    next (with_app_id r (env.uuid_string app))

  -- ResolveAdminKey, over the lookup that it is given (AdminKeyLookup)
  unfoldable pub resolve_admin_key :
      (String → M Err Bool) → (Request → Handler A) → Request → Handler A
  unfolding require_raw_key
  resolve_admin_key lookup next r = do
    raw ← require_raw_key r
    env ← Effect.asks (λ env. env)
    found ←
        Effect.map_err (λ _. write_error 500 "internal server error")
          (lookup (hash_api_key env raw))
    if found then next (with_admin r) else raise (write_error 401 "invalid api key")

  -- RequireAppID
  unfoldable pub require_app_id : Request → M (Response A) Uuid
  unfolding app_id
  require_app_id r env w = elim (app_id r.ctx) [
    | none ↦ (err (write_error 401 "app authentication required"), w)
    | some raw ↦ elim (env.parse_uuid raw) [
      | none ↦ (err (write_error 401 "invalid app authentication"), w)
      | some id ↦ (ok id, w)
    ]
  ]
