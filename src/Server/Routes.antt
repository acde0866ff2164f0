-- ===== src/Server/Routes.antt =====
-- The routes of New in internal/httpserver/server.go, in the order in which they are registered.
use open_aura.Prelude.{String, List, [], ◌∷◌, concat}
use open_aura.Httpx.{Request, Handler}
use open_aura.Server.{
  Parts, Output, deliver, token, decision, nothing, app, apps, user, users, tenant, tenants, role,
  roles, permission, permissions, role_assignment, role_assignments, resource, resources, action,
  actions, api_key, api_keys, admin_api_key, admin_api_keys,
}
use open_aura.Server.Mux.{Segment, lit, wild, Route}
use open_aura.UserAuth.Handler as AuthApi
use open_aura.Access.Handler as AccessApi
use open_aura.App.Handler as AppApi
use open_aura.User.Handler as UserApi
use open_aura.Tenant.Handler as TenantApi
use open_aura.Role.Handler as RoleApi
use open_aura.Permission.Handler as PermissionApi
use open_aura.RoleAssignments.Handler as RoleAssignmentsApi
use open_aura.Resource.Handler as ResourceApi
use open_aura.Action.Handler as ActionApi
use open_aura.ApiKey.Handler as ApiKeyApi
use open_aura.AdminApiKey.Handler as AdminApiKeyApi

abbrev pub route : String → List Segment → (Request → String → Handler Output) → Route
route method pattern serve = record { method = method; pattern = pattern; serve = serve }

-- the multiplexer `admin`
unfoldable pub admin_routes : Parts → List Route
admin_routes parts =
    route "POST" (lit "admin" ∷ lit "apps" ∷ [])
      (λ r body. deliver app (AppApi.create r (parts.codec.create_app body)))
    ∷ route "GET" (lit "admin" ∷ lit "apps" ∷ []) (λ r body. deliver apps (AppApi.list r))
    ∷ route "GET" (lit "admin" ∷ lit "apps" ∷ wild "id" ∷ []) (λ r body. deliver app (AppApi.get r))
    ∷ route "PATCH" (lit "admin" ∷ lit "apps" ∷ wild "id" ∷ [])
        (λ r body. deliver app (AppApi.update r (parts.codec.update_app body)))
    ∷ route "DELETE" (lit "admin" ∷ lit "apps" ∷ wild "id" ∷ [])
        (λ r body. deliver nothing (AppApi.delete r))
    ∷ route "POST" (lit "admin" ∷ lit "apps" ∷ wild "id" ∷ lit "api_keys" ∷ [])
        (λ r body. deliver api_key (ApiKeyApi.admin_create r (parts.codec.create_api_key body)))
    ∷ route "POST" (lit "admin" ∷ lit "api_keys" ∷ []) (λ r body.
      deliver admin_api_key (AdminApiKeyApi.create (parts.codec.create_admin_api_key body)))
    ∷ route "GET" (lit "admin" ∷ lit "api_keys" ∷ [])
        (λ r body. deliver admin_api_keys (AdminApiKeyApi.list r))
    ∷ route "GET" (lit "admin" ∷ lit "api_keys" ∷ wild "id" ∷ [])
        (λ r body. deliver admin_api_key (AdminApiKeyApi.get r))
    ∷ route "DELETE" (lit "admin" ∷ lit "api_keys" ∷ wild "id" ∷ [])
        (λ r body. deliver nothing (AdminApiKeyApi.delete r))
    ∷ []

unfoldable pub auth_routes : Parts → List Route
auth_routes parts =
    route "POST" (lit "auth" ∷ lit "register" ∷ [])
      (λ r body. deliver token (AuthApi.register parts.auth r (parts.codec.register body)))
    ∷ route "POST" (lit "auth" ∷ lit "login" ∷ [])
        (λ r body. deliver token (AuthApi.login parts.auth r (parts.codec.login body)))
    ∷ route "POST" (lit "auth" ∷ lit "apple" ∷ [])
        (λ r body. deliver token (AuthApi.apple parts.auth r (parts.codec.apple body)))
    ∷ []

unfoldable pub user_routes : Parts → List Route
user_routes parts =
    route "POST" (lit "users" ∷ [])
      (λ r body. deliver user (UserApi.create r (parts.codec.create_user body)))
    ∷ route "GET" (lit "users" ∷ []) (λ r body. deliver users (UserApi.list r))
    ∷ route "GET" (lit "users" ∷ wild "id" ∷ []) (λ r body. deliver user (UserApi.get r))
    ∷ route "PATCH" (lit "users" ∷ wild "id" ∷ [])
        (λ r body. deliver user (UserApi.update r (parts.codec.update_user body)))
    ∷ route "DELETE" (lit "users" ∷ wild "id" ∷ []) (λ r body. deliver nothing (UserApi.delete r))
    ∷ []

unfoldable pub tenant_routes : Parts → List Route
tenant_routes parts =
    route "POST" (lit "tenants" ∷ [])
      (λ r body. deliver tenant (TenantApi.create r (parts.codec.create_tenant body)))
    ∷ route "GET" (lit "tenants" ∷ []) (λ r body. deliver tenants (TenantApi.list r))
    ∷ route "GET" (lit "tenants" ∷ wild "id" ∷ []) (λ r body. deliver tenant (TenantApi.get r))
    ∷ route "PATCH" (lit "tenants" ∷ wild "id" ∷ [])
        (λ r body. deliver tenant (TenantApi.update r (parts.codec.update_tenant body)))
    ∷ route "DELETE" (lit "tenants" ∷ wild "id" ∷ [])
        (λ r body. deliver nothing (TenantApi.delete r))
    ∷ []

unfoldable pub role_routes : Parts → List Route
role_routes parts =
    route "POST" (lit "roles" ∷ [])
      (λ r body. deliver role (RoleApi.create r (parts.codec.create_role body)))
    ∷ route "GET" (lit "roles" ∷ []) (λ r body. deliver roles (RoleApi.list r))
    ∷ route "GET" (lit "roles" ∷ wild "id" ∷ []) (λ r body. deliver role (RoleApi.get r))
    ∷ route "PATCH" (lit "roles" ∷ wild "id" ∷ [])
        (λ r body. deliver role (RoleApi.update r (parts.codec.update_role body)))
    ∷ route "DELETE" (lit "roles" ∷ wild "id" ∷ []) (λ r body. deliver nothing (RoleApi.delete r))
    ∷ []

unfoldable pub permission_routes : Parts → List Route
permission_routes parts =
    route "POST" (lit "roles" ∷ wild "id" ∷ lit "permissions" ∷ [])
      (λ r body. deliver permission (PermissionApi.create r (parts.codec.create_permission body)))
    ∷ route "GET" (lit "roles" ∷ wild "id" ∷ lit "permissions" ∷ [])
        (λ r body. deliver permissions (PermissionApi.list r))
    ∷ route "GET" (lit "roles" ∷ wild "id" ∷ lit "permissions" ∷ wild "permission_id" ∷ [])
        (λ r body. deliver permission (PermissionApi.get r))
    ∷ route "DELETE" (lit "roles" ∷ wild "id" ∷ lit "permissions" ∷ wild "permission_id" ∷ [])
        (λ r body. deliver nothing (PermissionApi.delete r))
    ∷ []

unfoldable pub role_assignment_routes : Parts → List Route
role_assignment_routes parts =
    route "POST" (lit "roleassignments" ∷ []) (λ r body.
      deliver role_assignment
        (RoleAssignmentsApi.create r (parts.codec.create_role_assignment body)))
    ∷ route "GET" (lit "roleassignments" ∷ [])
        (λ r body. deliver role_assignments (RoleAssignmentsApi.list r))
    ∷ route "GET" (lit "roleassignments" ∷ wild "id" ∷ [])
        (λ r body. deliver role_assignment (RoleAssignmentsApi.get r))
    ∷ route "PATCH" (lit "roleassignments" ∷ wild "id" ∷ []) (λ r body.
      deliver role_assignment
        (RoleAssignmentsApi.update r (parts.codec.update_role_assignment body)))
    ∷ route "DELETE" (lit "roleassignments" ∷ wild "id" ∷ [])
        (λ r body. deliver nothing (RoleAssignmentsApi.delete r))
    ∷ []

unfoldable pub resource_routes : Parts → List Route
resource_routes parts =
    route "POST" (lit "resources" ∷ [])
      (λ r body. deliver resource (ResourceApi.create r (parts.codec.create_resource body)))
    ∷ route "GET" (lit "resources" ∷ []) (λ r body. deliver resources (ResourceApi.list r))
    ∷ route "GET" (lit "resources" ∷ wild "id" ∷ [])
        (λ r body. deliver resource (ResourceApi.get r))
    ∷ route "PATCH" (lit "resources" ∷ wild "id" ∷ [])
        (λ r body. deliver resource (ResourceApi.update r (parts.codec.update_resource body)))
    ∷ route "DELETE" (lit "resources" ∷ wild "id" ∷ [])
        (λ r body. deliver nothing (ResourceApi.delete r))
    ∷ []

unfoldable pub action_routes : Parts → List Route
action_routes parts =
    route "POST" (lit "actions" ∷ [])
      (λ r body. deliver action (ActionApi.create r (parts.codec.create_action body)))
    ∷ route "GET" (lit "actions" ∷ []) (λ r body. deliver actions (ActionApi.list r))
    ∷ route "GET" (lit "actions" ∷ wild "id" ∷ []) (λ r body. deliver action (ActionApi.get r))
    ∷ route "PATCH" (lit "actions" ∷ wild "id" ∷ [])
        (λ r body. deliver action (ActionApi.update r (parts.codec.update_action body)))
    ∷ route "DELETE" (lit "actions" ∷ wild "id" ∷ [])
        (λ r body. deliver nothing (ActionApi.delete r))
    ∷ []

unfoldable pub access_routes : Parts → List Route
access_routes parts =
    route "POST" (lit "access" ∷ lit "check" ∷ [])
      (λ r body. deliver decision (AccessApi.check r (parts.codec.check body)))
    ∷ []

unfoldable pub key_routes : Parts → List Route
key_routes parts =
    route "POST" (lit "api_keys" ∷ [])
      (λ r body. deliver api_key (ApiKeyApi.create r (parts.codec.create_api_key body)))
    ∷ route "GET" (lit "api_keys" ∷ []) (λ r body. deliver api_keys (ApiKeyApi.list r))
    ∷ route "GET" (lit "api_keys" ∷ wild "id" ∷ []) (λ r body. deliver api_key (ApiKeyApi.get r))
    ∷ route "DELETE" (lit "api_keys" ∷ wild "id" ∷ [])
        (λ r body. deliver nothing (ApiKeyApi.delete r))
    ∷ []

-- the multiplexer `appAPI`
unfoldable pub app_routes : Parts → List Route
app_routes parts = concat (
    auth_routes parts
    ∷ user_routes parts
    ∷ tenant_routes parts
    ∷ role_routes parts
    ∷ permission_routes parts
    ∷ role_assignment_routes parts
    ∷ resource_routes parts
    ∷ action_routes parts
    ∷ access_routes parts
    ∷ key_routes parts
    ∷ [])
