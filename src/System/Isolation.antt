-- ===== src/System/Isolation.antt =====
-- The rows of one app under the writes that act in other apps.
pub mod Owners
pub mod Names
pub mod Reached
use open_aura.Prelude.{
  ◌≡◌, ◌≢◌, refl, sym, ◌∙◌, subst, Bool, true, false, ◌==◌, ◌&&◌, List, [], ◌∷◌, ◌++◌, All, filter,
  arith, some, String,
}
use open_aura.Json.{Json, Fields}
use open_aura.Schema.{
  is_null, Uuid, Time, Db, Tenant, User, Role, Resource, Action, ApiKeyRow, IdentityRow, App,
  RoleAssignment, Permission, AdminApiKeyRow,
}
use open_aura.Schema.Constraints.{Outcome}
use open_aura.Schema.Writes.{
  insert_app, update_app, delete_app, insert_tenant, update_tenant, delete_tenant, insert_user,
  update_user, delete_user, insert_role, update_role, delete_role, insert_resource, update_resource,
  delete_resource, insert_action, update_action, delete_action, insert_role_assignment,
  update_role_assignment, delete_role_assignment, insert_permission, delete_permission,
  insert_api_key, revoke_api_key, insert_admin_api_key, revoke_admin_api_key, insert_identity,
}
use open_aura.Sql.{update_rows}
use open_aura.Sql.Laws.{filter-append, filter-update_rows}
use open_aura.Effect.{Result, ok, err, Env, World}
use open_aura.Effect.Keeps.{WriteKeeps, StableUnder}
use open_aura.System.Statements.{StatementsKeep}
use open_aura.System.Requests.{Write, Owned, run_all}
use open_aura.System.Invariants.{run_all-Keeps}

-- The rows of an app, in every table that names the app of a row.
pub record View : Type 0 where
  pub tenants : List Tenant
  pub users : List User
  pub roles : List Role
  pub resources : List Resource
  pub actions : List Action
  pub api_keys : List ApiKeyRow
  pub user_identities : List IdentityRow

abbrev pub view : Uuid → Db → View
view app db = record {
  tenants = filter (λ r. r.app_id == app) db.tenants;
  users = filter (λ r. r.app_id == app) db.users;
  roles = filter (λ r. r.app_id == app) db.roles;
  resources = filter (λ r. r.app_id == app) db.resources;
  actions = filter (λ r. r.app_id == app) db.actions;
  api_keys = filter (λ r. r.app_id == app) db.api_keys;
  user_identities = filter (λ r. r.app_id == app) db.user_identities;
}

-- The app sees `v`.
abbrev pub Sees : Uuid → View → Db → Type 0
Sees app v db = view app db ≡ v

module _ {R : Type 0} (app_of_row : R → Uuid) (b : Uuid) where
  -- A row of another app is added, or the rows of another app are rewritten.
  pub other_added :
      (rows : List R) (r : R)
      → app_of_row r ≢ b
      → filter (λ s. app_of_row s == b) (rows ++ r ∷ []) ≡ filter (λ s. app_of_row s == b) rows
  other_added rows r n = filter-append (λ s. app_of_row s == b) rows r (ground arith)

  pub other_updated :
      (key : R → Uuid) (active : R → Bool) (id app : Uuid) (f : R → R) (rows : List R)
      → app ≢ b
      → ((r : R) → app_of_row (f r) ≡ app_of_row r)
      → filter
          (λ s. app_of_row s == b)
          (update_rows (λ r. key r == id && app_of_row r == app && active r) f rows)
        ≡ filter (λ s. app_of_row s == b) rows
  other_updated key active id app f rows n k =
      filter-update_rows (λ s. app_of_row s == b)
        (λ r. key r == id && app_of_row r == app && active r) f rows
        (λ r h. (ground arith, ground (arith, k r)))
