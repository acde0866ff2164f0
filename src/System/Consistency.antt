-- ===== src/System/Consistency.antt =====
-- Every assignment joins a user, a role and a tenant of one app, and every permission a role, a
-- resource and an action of one app: what the triggers and the foreign keys of migrations/*.sql keep.
pub mod Extension
pub mod Owners
pub mod Names
pub mod Links
pub mod Reached
use open_aura.Prelude.{
  ℕ, ◌≡◌, refl, sym, subst, ◌∙◌, ◌==◌, or_left, or_right, Option-cases, inl, inr, Bool, true, false,
  ◌&&◌, Option, none, some, String, List, [], ◌∷◌, ◌++◌, All, All-append, arith, any,
}
use open_aura.Json.{Json, Fields}
use open_aura.Schema.{
  Uuid, Time, Db, App, Tenant, User, Role, RoleAssignment, Resource, Action, Permission,
}
use open_aura.Schema.Constraints.{
  user_app, role_app, tenant_app, resource_app, action_app, Outcome, assignment_mismatch,
  permission_mismatch, distinct,
}
use open_aura.Store.{DbError, no_rows}
use open_aura.Effect.{Result, ok, err}
use open_aura.Effect.Keeps.{WriteKeeps}

abbrev pub AssignmentInApp : Db → RoleAssignment → Type 0
AssignmentInApp db a =
    (x : Uuid) × (user_app db a.user_id ≡ some x)
    × (role_app db a.role_id ≡ some x)
    × (tenant_app db a.tenant_id ≡ some x)

abbrev pub PermissionInApp : Db → Permission → Type 0
PermissionInApp db p =
    (x : Uuid) × (role_app db p.role_id ≡ some x)
    × (resource_app db p.resource_id ≡ some x)
    × (action_app db p.action_id ≡ some x)

pub record IsConsistent (db : Db) : Type 0 where
  pub assignments : All (AssignmentInApp db) db.role_assignments
  pub permissions : All (PermissionInApp db) db.permissions
