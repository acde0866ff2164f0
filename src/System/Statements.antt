-- ===== src/System/Statements.antt =====
-- What each statement that writes has to keep, for the writes of the API to keep it: the interface
-- between the invariants of the tables and the code of the repositories.
use open_aura.Prelude.{String, Bool, ◌==◌, ◌&&◌}
use open_aura.Json.{Json, Fields}
use open_aura.Schema.{
  is_null, Uuid, Time, Db, App, Tenant, User, Role, RoleAssignment, Resource, Action, Permission,
  ApiKeyRow, AdminApiKeyRow, IdentityRow,
}
use open_aura.Schema.Writes.{
  insert_app, update_app, delete_app, insert_tenant, update_tenant, delete_tenant, insert_user,
  update_user, delete_user, insert_role, update_role, delete_role, insert_resource, update_resource,
  delete_resource, insert_action, update_action, delete_action, insert_role_assignment,
  update_role_assignment, delete_role_assignment, insert_permission, delete_permission,
  insert_api_key, revoke_api_key, insert_admin_api_key, revoke_admin_api_key, insert_identity,
}
use open_aura.Effect.Keeps.{WriteKeeps}

-- `A` says of which apps rows may be written in the tables that name an app.
pub record StatementsKeep (A : Uuid → Type 0) (P : Db → Type 0) : Type 0 where
  pub app_inserted : (r : App) → WriteKeeps P (insert_app r)
  pub app_updated :
      (p : App → Bool) (name : String) (metadata : Fields) (t : Time)
      → WriteKeeps P
          (update_app p (λ r. record r { name = name; metadata = metadata; updated_at = t }))
  pub app_deleted : (p : App → Bool) (t : Time) → WriteKeeps P (delete_app p t)
  pub tenant_inserted : (r : Tenant) → A r.app_id → WriteKeeps P (insert_tenant r)
  pub tenant_updated :
      (app id : Uuid)
      → A app
      → (metadata : Fields) (t : Time)
      → WriteKeeps P (
          update_tenant
            (λ r. r.id == id && r.app_id == app && is_null r.deleted_at)
            (λ r. record r { metadata = metadata; updated_at = t }))
  pub tenant_deleted :
      (app id : Uuid)
      → A app
      → (t : Time)
      → WriteKeeps P (delete_tenant (λ r. r.id == id && r.app_id == app && is_null r.deleted_at) t)
  pub user_inserted : (r : User) → A r.app_id → WriteKeeps P (insert_user r)
  pub user_updated :
      (app id : Uuid)
      → A app
      → (email : String) (metadata : Fields) (t : Time)
      → WriteKeeps P (
          update_user
            (λ r. r.id == id && r.app_id == app && is_null r.deleted_at)
            (λ r. record r { email = email; metadata = metadata; updated_at = t }))
  pub user_deleted :
      (app id : Uuid)
      → A app
      → (t : Time)
      → WriteKeeps P (delete_user (λ r. r.id == id && r.app_id == app && is_null r.deleted_at) t)
  pub role_inserted :
      (json_text : Json → String) (r : Role) → A r.app_id → WriteKeeps P (insert_role json_text r)
  pub role_updated :
      (app id : Uuid)
      → A app
      → (json_text : Json → String) (metadata : Fields) (t : Time)
      → WriteKeeps P (
          update_role json_text
            (λ r. r.id == id && r.app_id == app && is_null r.deleted_at)
            (λ r. record r { metadata = metadata; updated_at = t }))
  pub role_deleted :
      (app id : Uuid)
      → A app
      → (t : Time)
      → WriteKeeps P (delete_role (λ r. r.id == id && r.app_id == app && is_null r.deleted_at) t)
  pub resource_inserted : (r : Resource) → A r.app_id → WriteKeeps P (insert_resource r)
  pub resource_updated :
      (app id : Uuid)
      → A app
      → (name : String) (metadata : Fields) (t : Time)
      → WriteKeeps P (
          update_resource
            (λ r. r.id == id && r.app_id == app && is_null r.deleted_at)
            (λ r. record r { name = name; metadata = metadata; updated_at = t }))
  pub resource_deleted :
      (app id : Uuid)
      → A app
      → (t : Time)
      → WriteKeeps P
          (delete_resource (λ r. r.id == id && r.app_id == app && is_null r.deleted_at) t)
  pub action_inserted : (r : Action) → A r.app_id → WriteKeeps P (insert_action r)
  pub action_updated :
      (app id : Uuid)
      → A app
      → (name : String) (metadata : Fields) (t : Time)
      → WriteKeeps P (
          update_action
            (λ r. r.id == id && r.app_id == app && is_null r.deleted_at)
            (λ r. record r { name = name; metadata = metadata; updated_at = t }))
  pub action_deleted :
      (app id : Uuid)
      → A app
      → (t : Time)
      → WriteKeeps P (delete_action (λ r. r.id == id && r.app_id == app && is_null r.deleted_at) t)
  pub role_assignment_inserted : (r : RoleAssignment) → WriteKeeps P (insert_role_assignment r)
  pub role_assignment_updated :
      (p : Db → RoleAssignment → Bool) (user role tenant : Uuid) (t : Time)
      → WriteKeeps P (λ db.
        update_role_assignment
          (p db)
          (λ r. record r { user_id = user; role_id = role; tenant_id = tenant; updated_at = t })
          db)
  pub role_assignment_deleted :
      (p : Db → RoleAssignment → Bool) (t : Time)
      → WriteKeeps P (λ db. delete_role_assignment (p db) t db)
  pub permission_inserted : (r : Permission) → WriteKeeps P (insert_permission r)
  pub permission_deleted :
      (p : Db → Permission → Bool) (t : Time) → WriteKeeps P (λ db. delete_permission (p db) t db)
  pub api_key_inserted : (r : ApiKeyRow) → A r.app_id → WriteKeeps P (insert_api_key r)
  pub api_key_revoked :
      (app id : Uuid)
      → A app
      → (t : Time)
      → WriteKeeps P (revoke_api_key (λ r. r.id == id && r.app_id == app && is_null r.revoked_at) t)
  pub admin_api_key_inserted : (r : AdminApiKeyRow) → WriteKeeps P (insert_admin_api_key r)
  pub admin_api_key_revoked :
      (p : AdminApiKeyRow → Bool) (t : Time) → WriteKeeps P (revoke_admin_api_key p t)
  pub identity_inserted : (r : IdentityRow) → A r.app_id → WriteKeeps P (insert_identity r)
