-- ===== src/Schema/Writes/Links.antt =====
-- The statements that write roleassignments and permissions.
use open_aura.Prelude.{ℕ, Bool, ◌&&◌, none, some, [], ◌∷◌, ◌++◌, any, ◌==◌, if◌then◌else◌}
use open_aura.Schema.{Time, Db, RoleAssignment, Permission}
use open_aura.Sql.{select_one, update_rows, refuses_insert, refuses_update}
use open_aura.Store.{no_rows}
use open_aura.Effect.{ok, err}
use open_aura.Schema.Constraints.{
  Outcome, unique_violation, foreign_key_violation, affected, app_table, tenant_table, user_table,
  resource_table, action_table, role_assignment_table, permission_table, api_key_table,
  admin_api_key_table, identity_table, assignment_mismatch, permission_mismatch,
  assignment_exception, permission_exception,
}

-- INSERT INTO roleassignments ... RETURNING
unfoldable pub insert_role_assignment : RoleAssignment → Db → Outcome RoleAssignment
insert_role_assignment r db =
    if assignment_mismatch db r
    then err assignment_exception
    else if refuses_insert r db.role_assignments
    then err unique_violation
    else if any (λ x. x.id == r.user_id) db.users
        && any (λ x. x.id == r.role_id) db.roles
        && any (λ x. x.id == r.tenant_id) db.tenants
    then ok (r, record db { role_assignments = db.role_assignments ++ r ∷ [] })
    else err foreign_key_violation

-- UPDATE roleassignments SET f WHERE p RETURNING
unfoldable pub update_role_assignment :
    (RoleAssignment → Bool) → (RoleAssignment → RoleAssignment) → Db → Outcome RoleAssignment
update_role_assignment p f db = elim (select_one p db.role_assignments) [
  | none ↦ err no_rows
  | some r ↦
      if assignment_mismatch db (f r)
      then err assignment_exception
      else if refuses_update p f db.role_assignments
      then err unique_violation
      else if any (λ x. x.id == (f r).user_id) db.users
          && any (λ x. x.id == (f r).role_id) db.roles
          && any (λ x. x.id == (f r).tenant_id) db.tenants
      then ok (f r, record db { role_assignments = update_rows p f db.role_assignments })
      else err foreign_key_violation
]

-- UPDATE roleassignments SET deleted_at, updated_at = now WHERE p, for the number of rows; the
-- trigger looks at each row that is written
unfoldable pub delete_role_assignment : (RoleAssignment → Bool) → Time → Db → Outcome ℕ
delete_role_assignment p now db =
    if any (λ r. p r && assignment_mismatch db r) db.role_assignments
    then err assignment_exception
    else ok (
      affected p db.role_assignments,
      record db {
        role_assignments =
            update_rows p (λ r. record r { deleted_at = some now; updated_at = now })
              db.role_assignments;
      },
    )

-- INSERT INTO permissions ... RETURNING
unfoldable pub insert_permission : Permission → Db → Outcome Permission
insert_permission r db =
    if permission_mismatch db r
    then err permission_exception
    else if refuses_insert r db.permissions
    then err unique_violation
    else if any (λ x. x.id == r.role_id) db.roles
        && any (λ x. x.id == r.resource_id) db.resources
        && any (λ x. x.id == r.action_id) db.actions
    then ok (r, record db { permissions = db.permissions ++ r ∷ [] })
    else err foreign_key_violation

-- UPDATE permissions SET deleted_at, updated_at = now WHERE p, for the number of rows; the
-- trigger looks at each row that is written
unfoldable pub delete_permission : (Permission → Bool) → Time → Db → Outcome ℕ
delete_permission p now db =
    if any (λ r. p r && permission_mismatch db r) db.permissions
    then err permission_exception
    else ok (
      affected p db.permissions,
      record db {
        permissions =
            update_rows p (λ r. record r { deleted_at = some now; updated_at = now })
              db.permissions;
      },
    )
