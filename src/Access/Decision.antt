-- ===== src/Access/Decision.antt =====
-- The decision of POST /access/check against the rule of docs/explanation/access-evaluation.md.
use text.Mathlib.TextEquality.{eq_iff}
use open_aura.Prelude.{
  ◌≢◌, and_left, and_right, str_eq, false, ◌≡◌, ◌↔◌, Bool, true, none, String, ◌&&◌, any, any_iff,
  Some, arith,
}
use open_aura.Schema.{
  nil_uuid, Uuid, Db, Tenant, User, Role, RoleAssignment, Resource, Action, Permission,
}
use open_aura.Text.{trim_space}
use open_aura.Effect.{Env, World, ok, up, query, map_err}
use open_aura.Access.{CheckInput}
use open_aura.Access.Repository.{
  allowed, check, role_joins, user_joins, tenant_joins, resource_joins, action_joins,
  assignment_matches, permission_matches,
}

-- The row that an assignment or a permission points to, when it is active and in the app.
abbrev pub RoleOf : Uuid → RoleAssignment → Role → Type 0
RoleOf app ra ro = (ro.id ≡ ra.role_id) × (ro.deleted_at ≡ none) × (ro.app_id ≡ app)

abbrev pub UserOf : Uuid → RoleAssignment → User → Type 0
UserOf app ra u = (u.id ≡ ra.user_id) × (u.deleted_at ≡ none) × (u.app_id ≡ app)

abbrev pub TenantOf : Uuid → RoleAssignment → Tenant → Type 0
TenantOf app ra t = (t.id ≡ ra.tenant_id) × (t.deleted_at ≡ none) × (t.app_id ≡ app)

abbrev pub ResourceOf : Uuid → String → Permission → Resource → Type 0
ResourceOf app name p s =
    (s.id ≡ p.resource_id) × (s.deleted_at ≡ none) × (s.app_id ≡ app) × (s.name ≡ name)

abbrev pub ActionOf : Uuid → String → Permission → Action → Type 0
ActionOf app name p a =
    (a.id ≡ p.action_id) × (a.deleted_at ≡ none) × (a.app_id ≡ app) × (a.name ≡ name)

-- An active assignment of the user in the tenant, with its role, user and tenant.
pub record IsAssigned (db : Db) (app user tenant : Uuid) (ra : RoleAssignment) : Type 0 where
  pub active : ra.deleted_at ≡ none
  pub of_user : ra.user_id ≡ user
  pub in_tenant : ra.tenant_id ≡ tenant
  pub role : Some (RoleOf app ra) db.roles
  pub subject : Some (UserOf app ra) db.users
  pub scope : Some (TenantOf app ra) db.tenants

-- An active permission of the assignment's role, with its resource and action.
pub record IsGranted (db : Db) (app : Uuid) (resource action : String) (ra : RoleAssignment)
    (p : Permission) : Type 0 where
  pub of_role : p.role_id ≡ ra.role_id
  pub active : p.deleted_at ≡ none
  pub object : Some (ResourceOf app resource p) db.resources
  pub verb : Some (ActionOf app action p) db.actions

-- user - assignment - role - permission - (resource, action)
abbrev pub GrantPath : Db → Uuid → Uuid → Uuid → String → String → Type 0
GrantPath db app user tenant resource action =
    Some
      (λ ra.
        IsAssigned db app user tenant ra
        × Some (IsGranted db app resource action ra) db.permissions)
      db.role_assignments

role_joins_iff :
    (app : Uuid) (ra : RoleAssignment) (r : Role) → (role_joins app ra r ≡ true) ↔ RoleOf app ra r
role_joins_iff app ra r = ground arith

user_joins_iff :
    (app : Uuid) (ra : RoleAssignment) (r : User) → (user_joins app ra r ≡ true) ↔ UserOf app ra r
user_joins_iff app ra r = ground arith

tenant_joins_iff :
    (app : Uuid) (ra : RoleAssignment) (r : Tenant)
    → (tenant_joins app ra r ≡ true) ↔ TenantOf app ra r
tenant_joins_iff app ra r = ground arith

resource_joins_iff :
    (app : Uuid) (name : String) (p : Permission) (r : Resource)
    → (resource_joins app name p r ≡ true) ↔ ResourceOf app name p r
resource_joins_iff app name p r = ground (arith, eq_iff r.name name)

action_joins_iff :
    (app : Uuid) (name : String) (p : Permission) (r : Action)
    → (action_joins app name p r ≡ true) ↔ ActionOf app name p r
action_joins_iff app name p r = ground (arith, eq_iff r.name name)

module _ (db : Db) (app user tenant : Uuid) (ra : RoleAssignment) where
  assignment_matches_iff :
      (assignment_matches db app user tenant ra ≡ true) ↔ IsAssigned db app user tenant ra
  assignment_matches_iff =
      let r = any_iff (role_joins app ra) (RoleOf app ra) db.roles (role_joins_iff app ra) in
      let u = any_iff (user_joins app ra) (UserOf app ra) db.users (user_joins_iff app ra) in
      let t =
        any_iff (tenant_joins app ra) (TenantOf app ra) db.tenants (tenant_joins_iff app ra) in
      (
        λ h. record {
          active = ground arith;
          of_user = ground arith;
          in_tenant = ground arith;
          role = r.0 (ground arith);
          subject = u.0 (ground arith);
          scope = t.0 (ground arith);
        },
        λ h. ground (arith, r.1 h.role, u.1 h.subject, t.1 h.scope),
      )

module _ (db : Db) (app : Uuid) (resource action : String) (ra : RoleAssignment)
    (p : Permission) where
  permission_matches_iff :
      (permission_matches db app resource action ra p ≡ true)
      ↔ IsGranted db app resource action ra p
  permission_matches_iff =
      let s =
        any_iff (resource_joins app resource p) (ResourceOf app resource p) db.resources
          (resource_joins_iff app resource p) in
      let a =
        any_iff (action_joins app action p) (ActionOf app action p) db.actions
          (action_joins_iff app action p) in
      (
        λ h. record {
          of_role = ground arith;
          active = ground arith;
          object = s.0 (ground arith);
          verb = a.0 (ground arith);
        },
        λ h. ground (arith, s.1 h.object, a.1 h.verb),
      )

module _ (db : Db) (app user tenant : Uuid) (resource action : String) where
  grants_iff :
      (ra : RoleAssignment)
      → ((assignment_matches db app user tenant ra
            && any (permission_matches db app resource action ra) db.permissions)
          ≡ true)
        ↔ (IsAssigned db app user tenant ra
            × Some (IsGranted db app resource action ra) db.permissions)
  grants_iff ra =
      let a = assignment_matches_iff db app user tenant ra in
      let p =
        any_iff (permission_matches db app resource action ra) (IsGranted db app resource action ra)
          db.permissions (permission_matches_iff db app resource action ra) in
      (λ h. (a.0 (and_left _ _ h), p.0 (and_right _ _ h)), λ h. rw (a.1 h.0, p.1 h.1))

  pub allowed_iff :
      (allowed db app user tenant resource action ≡ true)
      ↔ GrantPath db app user tenant resource action
  unfolding allowed
  allowed_iff = any_iff _ _ db.role_assignments grants_iff

-- For an app, a user and a tenant that are not nil, names that are not blank and a database that
-- answers, Check returns a decision, and it is `true` exactly when a path of active rows of the app
-- leads from the user, in the tenant, to the trimmed names of the resource and the action.
pub check_decides :
    (env : Env) (w : World) (app : Uuid) (input : CheckInput)
    → app ≢ nil_uuid
    → input.user_id ≢ nil_uuid
    → input.tenant_id ≢ nil_uuid
    → str_eq (trim_space input.resource) "" ≡ false
    → str_eq (trim_space input.action) "" ≡ false
    → env.fault w.tick ≡ up
    → (b : Bool) × ((check app input env w).0 ≡ ok b)
      × ((b ≡ true)
          ↔ GrantPath
              (env.others w.tick w.db)
              app
              input.user_id
              input.tenant_id
              (trim_space input.resource)
              (trim_space input.action))
unfolding check map_err query
check_decides env w app input a u t r c f = (
  allowed (env.others w.tick w.db) app input.user_id input.tenant_id (trim_space input.resource)
      (trim_space input.action),
  ground arith,
  allowed_iff (env.others w.tick w.db) app input.user_id input.tenant_id (trim_space input.resource)
      (trim_space input.action),
)
