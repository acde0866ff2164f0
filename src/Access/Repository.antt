-- ===== src/Access/Repository.antt =====
-- internal/access/repository.go
use open_aura.Prelude.{Bool, ◌&&◌, ◌||◌, String, ◌==◌, str_eq, if◌then◌else◌}
use open_aura.Text.{trim_space}
use open_aura.Schema.{
  Uuid, Db, nil_uuid, is_null, Tenant, User, Role, RoleAssignment, Resource, Action, Permission,
}
use open_aura.Store.{Err, invalid_input, wrap_error}
use open_aura.Effect.{M, ok, raise, map_err, query}
use open_aura.Prelude.{any}
use open_aura.Access.{CheckInput}

-- The INNER JOINs, with the conditions of the WHERE clause on the row that is joined.
abbrev pub role_joins : Uuid → RoleAssignment → Role → Bool
role_joins app ra ro = ro.id == ra.role_id && is_null ro.deleted_at && ro.app_id == app

abbrev pub user_joins : Uuid → RoleAssignment → User → Bool
user_joins app ra u = u.id == ra.user_id && is_null u.deleted_at && u.app_id == app

abbrev pub tenant_joins : Uuid → RoleAssignment → Tenant → Bool
tenant_joins app ra t = t.id == ra.tenant_id && is_null t.deleted_at && t.app_id == app

abbrev pub resource_joins : Uuid → String → Permission → Resource → Bool
resource_joins app name p res =
    res.id == p.resource_id && is_null res.deleted_at && res.app_id == app && str_eq res.name name

abbrev pub action_joins : Uuid → String → Permission → Action → Bool
action_joins app name p act =
    act.id == p.action_id && is_null act.deleted_at && act.app_id == app && str_eq act.name name

-- the conditions on an assignment and the rows that it joins
abbrev pub assignment_matches : Db → Uuid → Uuid → Uuid → RoleAssignment → Bool
assignment_matches db app user tenant ra =
    is_null ra.deleted_at
    && ra.user_id == user
    && ra.tenant_id == tenant
    && any (role_joins app ra) db.roles
    && any (user_joins app ra) db.users
    && any (tenant_joins app ra) db.tenants

-- the conditions on a permission of the assignment's role and the rows that it joins
abbrev pub permission_matches : Db → Uuid → String → String → RoleAssignment → Permission → Bool
permission_matches db app resource action ra p =
    p.role_id == ra.role_id
    && is_null p.deleted_at
    && any (resource_joins app resource p) db.resources
    && any (action_joins app action p) db.actions

-- SELECT EXISTS (...)
unfoldable pub allowed : Db → Uuid → Uuid → Uuid → String → String → Bool
allowed db app user tenant resource action =
    any
      (λ ra.
        assignment_matches db app user tenant ra
        && any (permission_matches db app resource action ra) db.permissions)
      db.role_assignments

-- Check
unfoldable pub check : Uuid → CheckInput → M Err Bool
check app input =
    if app == nil_uuid || input.user_id == nil_uuid || input.tenant_id == nil_uuid
    then raise (invalid_input "user_id and tenant_id are required")
    else let resource = trim_space input.resource in
      let action = trim_space input.action in
      if str_eq resource "" || str_eq action ""
      then raise (invalid_input "resource and action are required")
      else map_err wrap_error
          (query (λ db. ok (allowed db app input.user_id input.tenant_id resource action)))
