-- ===== src/System/Invariants.antt =====
-- An invariant that the statements keep holds after any writes, whatever the faults and the
-- interleavings with other requests that keep it too.
use open_aura.Prelude.{List, [], ◌∷◌, All}
use open_aura.Schema.{Db, Uuid}
use open_aura.Effect.{Env, World}
use open_aura.Effect.Keeps.{Keeps, StableUnder, keeps_rules}
use open_aura.System.Statements.{StatementsKeep}
use open_aura.System.Requests.{
  Write, Owned, run, run_all, create_app, update_app, delete_app, create_tenant, update_tenant,
  delete_tenant, create_role, update_role, delete_role, create_resource, update_resource,
  delete_resource, create_action, update_action, delete_action, create_user, update_user,
  delete_user, create_role_assignment, update_role_assignment, delete_role_assignment,
  create_permission, delete_permission, create_api_key, revoke_api_key, create_admin_api_key,
  revoke_admin_api_key, ensure_bootstrap_key, register_password, sign_in_with_apple,
}
use open_aura.System.Writes.Apps
use open_aura.System.Writes.Tenants
use open_aura.System.Writes.Users
use open_aura.System.Writes.Roles
use open_aura.System.Writes.Resources
use open_aura.System.Writes.Actions
use open_aura.System.Writes.Assignments
use open_aura.System.Writes.Permissions
use open_aura.System.Writes.Keys
use open_aura.System.Writes.Identities

module _ (A : Uuid → Type 0) (P : Db → Type 0) (k : StatementsKeep A P) where
  pub run-Keeps : (q : Write) → Owned A q → Keeps P (run q)
  unfolding run
  run-Keeps (Write.create_app i) own = search (keeps_rules, Apps.create-Keeps A P k)
  run-Keeps (Write.update_app id i) own = search (keeps_rules, Apps.update-Keeps A P k)
  run-Keeps (Write.delete_app id) own = Apps.delete-Keeps A P k id
  run-Keeps (Write.create_tenant app i) own = search (keeps_rules, Tenants.create-Keeps A P k)
  run-Keeps (Write.update_tenant app id i) own = search (keeps_rules, Tenants.update-Keeps A P k)
  run-Keeps (Write.delete_tenant app id) own = Tenants.delete-Keeps A P k app own id
  run-Keeps (Write.create_user app i) own = search (keeps_rules, Users.create-Keeps A P k)
  run-Keeps (Write.update_user app id i) own = search (keeps_rules, Users.update-Keeps A P k)
  run-Keeps (Write.delete_user app id) own = Users.delete-Keeps A P k app own id
  run-Keeps (Write.create_role app i) own = search (keeps_rules, Roles.create-Keeps A P k)
  run-Keeps (Write.update_role app id i) own = search (keeps_rules, Roles.update-Keeps A P k)
  run-Keeps (Write.delete_role app id) own = Roles.delete-Keeps A P k app own id
  run-Keeps (Write.create_resource app i) own = search (keeps_rules, Resources.create-Keeps A P k)
  run-Keeps (Write.update_resource app id i) own =
      search (keeps_rules, Resources.update-Keeps A P k)
  run-Keeps (Write.delete_resource app id) own = Resources.delete-Keeps A P k app own id
  run-Keeps (Write.create_action app i) own = search (keeps_rules, Actions.create-Keeps A P k)
  run-Keeps (Write.update_action app id i) own = search (keeps_rules, Actions.update-Keeps A P k)
  run-Keeps (Write.delete_action app id) own = Actions.delete-Keeps A P k app own id
  run-Keeps (Write.create_role_assignment app i) own =
      search (keeps_rules, Assignments.create-Keeps A P k)
  run-Keeps (Write.update_role_assignment app id i) own =
      search (keeps_rules, Assignments.update-Keeps A P k)
  run-Keeps (Write.delete_role_assignment app id) own = Assignments.delete-Keeps A P k app id
  run-Keeps (Write.create_permission app role i) own =
      search (keeps_rules, Permissions.create-Keeps A P k)
  run-Keeps (Write.delete_permission app role id) own = Permissions.delete-Keeps A P k app role id
  run-Keeps (Write.create_api_key app i) own = search (keeps_rules, Keys.create-Keeps A P k)
  run-Keeps (Write.revoke_api_key app id) own = Keys.revoke-Keeps A P k app own id
  run-Keeps (Write.create_admin_api_key i) own = search (keeps_rules, Keys.create_admin-Keeps A P k)
  run-Keeps (Write.revoke_admin_api_key id) own = Keys.revoke_admin-Keeps A P k id
  run-Keeps (Write.ensure_bootstrap_key raw name) own = Keys.ensure-Keeps A P k raw name
  run-Keeps (Write.register_password app email hash metadata) own =
      search (keeps_rules, Identities.register-Keeps A P k) depth 8
  run-Keeps (Write.sign_in_with_apple app email subject metadata) own =
      search (keeps_rules, Identities.apple-Keeps A P k) depth 8

  pub run_all-Keeps :
      (qs : List Write) (env : Env) (w : World)
      → All (Owned A) qs
      → StableUnder P env
      → P w.db
      → P (run_all qs env w).db
  unfolding run_all
  run_all-Keeps [] env w own st h = h
  run_all-Keeps (q ∷ qs) env w own st h =
      run_all-Keeps qs env (run q env w).1 own.1 st ((run-Keeps q own.0).at env st w h)

Owned-any : (q : Write) → Owned (λ app. Unit) q
Owned-any (create_app _) = tt
Owned-any (update_app _ _) = tt
Owned-any (delete_app _) = tt
Owned-any (create_tenant _ _) = tt
Owned-any (update_tenant _ _ _) = tt
Owned-any (delete_tenant _ _) = tt
Owned-any (create_role _ _) = tt
Owned-any (update_role _ _ _) = tt
Owned-any (delete_role _ _) = tt
Owned-any (create_resource _ _) = tt
Owned-any (update_resource _ _ _) = tt
Owned-any (delete_resource _ _) = tt
Owned-any (create_action _ _) = tt
Owned-any (update_action _ _ _) = tt
Owned-any (delete_action _ _) = tt
Owned-any (create_user _ _) = tt
Owned-any (update_user _ _ _) = tt
Owned-any (delete_user _ _) = tt
Owned-any (create_role_assignment _ _) = tt
Owned-any (update_role_assignment _ _ _) = tt
Owned-any (delete_role_assignment _ _) = tt
Owned-any (create_permission _ _ _) = tt
Owned-any (delete_permission _ _ _) = tt
Owned-any (create_api_key _ _) = tt
Owned-any (revoke_api_key _ _) = tt
Owned-any (create_admin_api_key _) = tt
Owned-any (revoke_admin_api_key _) = tt
Owned-any (ensure_bootstrap_key _ _) = tt
Owned-any (register_password _ _ _ _) = tt
Owned-any (sign_in_with_apple _ _ _ _) = tt

module _ (P : Db → Type 0) (k : StatementsKeep (λ app. Unit) P) where
  -- when the writes may act in any app
  pub run_all-Keeps_any :
      (qs : List Write) (env : Env) (w : World)
      → StableUnder P env
      → P w.db
      → P (run_all qs env w).db
  run_all-Keeps_any qs env w = run_all-Keeps (λ app. Unit) P k qs env w (all_owned qs)
    where
      all_owned : (qs : List Write) → All (Owned (λ app. Unit)) qs
      all_owned [] = tt
      all_owned (q ∷ qs) = (Owned-any q, all_owned qs)
