-- ===== src/System/Requests.antt =====
-- The writes that the API and the start of the server can ask for, as data, and what each one runs.
use open_aura.Prelude.{String, List, [], ◌∷◌}
use open_aura.Schema.{Uuid}
use open_aura.Store.{Err, internal}
use open_aura.Json.{RawMessage}
use open_aura.Effect.{M, Env, World, pure, ◌>>=◌, in_tx, map_err}
use open_aura.Httpx.{Response}
use open_aura.App
use open_aura.Tenant
use open_aura.Role
use open_aura.Resource
use open_aura.Action
use open_aura.User
use open_aura.ApiKey
use open_aura.AdminApiKey
use open_aura.RoleAssignments
use open_aura.Permission
use open_aura.UserAuth
use open_aura.UserAuth.{TokenResponse}
use open_aura.UserAuth.Handler.{register_user, apple_transaction}

pub data Write : Type 0 where
  create_app : App.CreateInput → Write
  update_app : Uuid → App.UpdateInput → Write
  delete_app : Uuid → Write
  create_tenant : Uuid → Tenant.CreateInput → Write
  update_tenant : Uuid → Uuid → Tenant.UpdateInput → Write
  delete_tenant : Uuid → Uuid → Write
  create_role : Uuid → Role.CreateInput → Write
  update_role : Uuid → Uuid → Role.UpdateInput → Write
  delete_role : Uuid → Uuid → Write
  create_resource : Uuid → Resource.CreateInput → Write
  update_resource : Uuid → Uuid → Resource.UpdateInput → Write
  delete_resource : Uuid → Uuid → Write
  create_action : Uuid → Action.CreateInput → Write
  update_action : Uuid → Uuid → Action.UpdateInput → Write
  delete_action : Uuid → Uuid → Write
  create_user : Uuid → User.CreateInput → Write
  update_user : Uuid → Uuid → User.UpdateInput → Write
  delete_user : Uuid → Uuid → Write
  create_role_assignment : Uuid → RoleAssignments.CreateInput → Write
  update_role_assignment : Uuid → Uuid → RoleAssignments.UpdateInput → Write
  delete_role_assignment : Uuid → Uuid → Write
  create_permission : Uuid → Uuid → Permission.CreateInput → Write
  delete_permission : Uuid → Uuid → Uuid → Write
  create_api_key : Uuid → ApiKey.CreateInput → Write
  revoke_api_key : Uuid → Uuid → Write
  create_admin_api_key : AdminApiKey.CreateInput → Write
  revoke_admin_api_key : Uuid → Write
  ensure_bootstrap_key : String → String → Write
  register_password : Uuid → String → String → RawMessage → Write
  sign_in_with_apple : Uuid → String → String → RawMessage → Write

-- The app that a write acts in satisfies `A`; the apps themselves and the admin keys are in no app.
abbrev pub Owned : (Uuid → Type 0) → Write → Type 0
Owned A (create_app _) = Unit
Owned A (update_app _ _) = Unit
Owned A (delete_app _) = Unit
Owned A (create_tenant app _) = A app
Owned A (update_tenant app _ _) = A app
Owned A (delete_tenant app _) = A app
Owned A (create_role app _) = A app
Owned A (update_role app _ _) = A app
Owned A (delete_role app _) = A app
Owned A (create_resource app _) = A app
Owned A (update_resource app _ _) = A app
Owned A (delete_resource app _) = A app
Owned A (create_action app _) = A app
Owned A (update_action app _ _) = A app
Owned A (delete_action app _) = A app
Owned A (create_user app _) = A app
Owned A (update_user app _ _) = A app
Owned A (delete_user app _) = A app
Owned A (create_role_assignment app _) = A app
Owned A (update_role_assignment app _ _) = A app
Owned A (delete_role_assignment app _) = A app
Owned A (create_permission app _ _) = A app
Owned A (delete_permission app _ _) = A app
Owned A (create_api_key app _) = A app
Owned A (revoke_api_key app _) = A app
Owned A (create_admin_api_key _) = Unit
Owned A (revoke_admin_api_key _) = Unit
Owned A (ensure_bootstrap_key _ _) = Unit
Owned A (register_password app _ _ _) = A app
Owned A (sign_in_with_apple app _ _ _) = A app

-- the result does not matter
abbrev pub discard : {E A : Type 0} → M E A → M E (Unit {0})
discard m = m >>= λ _. pure tt

abbrev pub failed : {A : Type 0} → Response A → Err
failed r = internal

unfoldable pub run : Write → M Err (Unit {0})
run (create_app i) = discard (App.Repository.create i)
run (update_app id i) = discard (App.Repository.update id i)
run (delete_app id) = App.Repository.soft_delete id
run (create_tenant app i) = discard (Tenant.Repository.create app i)
run (update_tenant app id i) = discard (Tenant.Repository.update app id i)
run (delete_tenant app id) = Tenant.Repository.soft_delete app id
run (create_role app i) = discard (Role.Repository.create app i)
run (update_role app id i) = discard (Role.Repository.update app id i)
run (delete_role app id) = Role.Repository.soft_delete app id
run (create_resource app i) = discard (Resource.Repository.create app i)
run (update_resource app id i) = discard (Resource.Repository.update app id i)
run (delete_resource app id) = Resource.Repository.soft_delete app id
run (create_action app i) = discard (Action.Repository.create app i)
run (update_action app id i) = discard (Action.Repository.update app id i)
run (delete_action app id) = Action.Repository.soft_delete app id
run (create_user app i) = discard (User.Repository.create app i)
run (update_user app id i) = discard (User.Repository.update app id i)
run (delete_user app id) = User.Repository.soft_delete app id
run (create_role_assignment app i) = discard (RoleAssignments.Repository.create app i)
run (update_role_assignment app id i) = discard (RoleAssignments.Repository.update app id i)
run (delete_role_assignment app id) = RoleAssignments.Repository.soft_delete app id
run (create_permission app role i) = discard (Permission.Repository.create app role i)
run (delete_permission app role id) = Permission.Repository.soft_delete app role id
run (create_api_key app i) = discard (ApiKey.Repository.create app i)
run (revoke_api_key app id) = ApiKey.Repository.revoke app id
run (create_admin_api_key i) = discard (AdminApiKey.Repository.create i)
run (revoke_admin_api_key id) = AdminApiKey.Repository.revoke id
run (ensure_bootstrap_key raw name) = AdminApiKey.Repository.ensure_bootstrap_key raw name
run (register_password app email hash metadata) =
    map_err failed
      (discard (in_tx UserAuth.Handler.internal_error (register_user app email hash metadata)))
run (sign_in_with_apple app email subject metadata) =
    map_err failed (discard (apple_transaction app email subject metadata))

-- One write after the other, whatever comes of each.
unfoldable pub run_all : List Write → Env → World → World
run_all [] env w = w
run_all (q ∷ qs) env w = run_all qs env (run q env w).1
