-- ===== src/System/Consistency/Extension.antt =====
-- What the consistency of assignments and permissions needs of the rows that they point to.
use open_aura.Prelude.{◌≡◌, some, List, All}
use open_aura.Schema.{Uuid, Db, RoleAssignment, Permission}
use open_aura.Schema.Constraints.{user_app, role_app, tenant_app, resource_app, action_app}
use open_aura.Sql.Laws.{All-imp}
use open_aura.System.Consistency.{AssignmentInApp, PermissionInApp}

-- `db'` still knows the apps of the rows of `db`.
pub record Extends (db db' : Db) : Type 0 where
  pub users : (id x : Uuid) → user_app db id ≡ some x → user_app db' id ≡ some x
  pub roles : (id x : Uuid) → role_app db id ≡ some x → role_app db' id ≡ some x
  pub tenants : (id x : Uuid) → tenant_app db id ≡ some x → tenant_app db' id ≡ some x
  pub resources : (id x : Uuid) → resource_app db id ≡ some x → resource_app db' id ≡ some x
  pub actions : (id x : Uuid) → action_app db id ≡ some x → action_app db' id ≡ some x

module _ (db db' : Db) (e : Extends db db') where
  pub Extends-assignments :
      (rows : List RoleAssignment) → All (AssignmentInApp db) rows → All (AssignmentInApp db') rows
  Extends-assignments rows =
      All-imp (AssignmentInApp db) (AssignmentInApp db') rows
        λ a h. (h.0, e.users _ _ h.1, e.roles _ _ h.2, e.tenants _ _ h.3)

  pub Extends-permissions :
      (rows : List Permission) → All (PermissionInApp db) rows → All (PermissionInApp db') rows
  Extends-permissions rows =
      All-imp (PermissionInApp db) (PermissionInApp db') rows
        λ p h. (h.0, e.roles _ _ h.1, e.resources _ _ h.2, e.actions _ _ h.3)
