-- ===== src/Server.antt =====
-- internal/httpserver/server.go: what comes in, what goes out, and the parts that New is given.
pub mod Mux
pub mod Routes
pub mod KeptEntities
pub mod Kept
pub mod Served
pub mod Requests
pub mod Version
pub mod Routing
pub mod Handlers
pub mod InApp
pub mod Gate
use open_aura.Prelude.{ℕ, Option, none, some, String, List, Bool}
use open_aura.Schema.{App, User, Tenant, Role, Permission, RoleAssignment, Resource, Action}
use open_aura.Effect.{Result, ok, err, Env, World}
use open_aura.Httpx.{Payload, error, value, empty, Response, Request, Handler}
use open_aura.ApiKey.{ApiKey}
use open_aura.AdminApiKey.{AdminApiKey}
use open_aura.UserAuth.{TokenResponse, RegisterInput, LoginInput, AppleInput}
use open_aura.UserAuth.Handler.{AuthHandler}
use open_aura.Access.{CheckInput}
use open_aura.App as AppApi
use open_aura.User as UserApi
use open_aura.Tenant as TenantApi
use open_aura.Role as RoleApi
use open_aura.Permission as PermissionApi
use open_aura.RoleAssignments as RoleAssignmentsApi
use open_aura.Resource as ResourceApi
use open_aura.Action as ActionApi
use open_aura.ApiKey as ApiKeyApi
use open_aura.AdminApiKey as AdminApiKeyApi

-- A request as net/http gives it to the server: the path is the clean one, split at its slashes, so
-- that "/users" is one part and "/users/" two; `body` is what DecodeJSON reads.
pub record Incoming : Type 0 where
  pub method : String
  pub path : List String
  pub header : String → String
  pub query : String → String
  pub body : String

-- The values that the handlers write, with the replies that the multiplexer writes itself.
pub data Output : Type 0 where
  healthy : Output
  plain : String → Output
  moved : String → Output
  app : App → Output
  apps : List App → Output
  user : User → Output
  users : List User → Output
  tenant : Tenant → Output
  tenants : List Tenant → Output
  role : Role → Output
  roles : List Role → Output
  permission : Permission → Output
  permissions : List Permission → Output
  role_assignment : RoleAssignment → Output
  role_assignments : List RoleAssignment → Output
  resource : Resource → Output
  resources : List Resource → Output
  action : Action → Output
  actions : List Action → Output
  api_key : ApiKey → Output
  api_keys : List ApiKey → Output
  admin_api_key : AdminApiKey → Output
  admin_api_keys : List AdminApiKey → Output
  token : TokenResponse → Output
  decision : Bool → Output
  nothing : Unit {0} → Output

-- What json.Decoder makes of a body, for each struct that a handler reads.
pub record Codec : Type 0 where
  pub create_app : String → Option AppApi.CreateInput
  pub update_app : String → Option AppApi.UpdateInput
  pub create_user : String → Option UserApi.CreateInput
  pub update_user : String → Option UserApi.UpdateInput
  pub create_tenant : String → Option TenantApi.CreateInput
  pub update_tenant : String → Option TenantApi.UpdateInput
  pub create_role : String → Option RoleApi.CreateInput
  pub update_role : String → Option RoleApi.UpdateInput
  pub create_permission : String → Option PermissionApi.CreateInput
  pub create_role_assignment : String → Option RoleAssignmentsApi.CreateInput
  pub update_role_assignment : String → Option RoleAssignmentsApi.UpdateInput
  pub create_resource : String → Option ResourceApi.CreateInput
  pub update_resource : String → Option ResourceApi.UpdateInput
  pub create_action : String → Option ActionApi.CreateInput
  pub update_action : String → Option ActionApi.UpdateInput
  pub create_api_key : String → Option ApiKeyApi.CreateInput
  pub create_admin_api_key : String → Option AdminApiKeyApi.CreateInput
  pub register : String → Option RegisterInput
  pub login : String → Option LoginInput
  pub apple : String → Option AppleInput
  pub check : String → Option CheckInput

-- The handler of sign-in, the decoder, the page of http-swagger, and the status with which net/http
-- redirects to a path with a slash at its end.
pub record Parts : Type 0 where
  pub auth : AuthHandler
  pub codec : Codec
  pub documentation : Incoming → Response Output
  pub redirect_status : ℕ

abbrev pub payload_as : {A B : Type 0} → (A → B) → Payload A → Payload B
payload_as f (error s) = error s
payload_as f (value a) = value (f a)
payload_as f empty = empty

abbrev pub response_as : {A B : Type 0} → (A → B) → Response A → Response B
response_as f r = record { status = r.status; body = payload_as f r.body }

abbrev pub sent_as :
    {A B : Type 0} → (A → B) → Result (Response A) (Response A) → Result (Response B) (Response B)
sent_as f (ok r) = ok (response_as f r)
sent_as f (err r) = err (response_as f r)

-- a handler of one entity among those of the others
unfoldable pub deliver : {A B : Type 0} → (A → B) → Handler A → Handler B
deliver f h env w = let (r, w') = h env w in (sent_as f r, w')
