-- ===== src/System/Isolation/Reached.antt =====
-- The rows of an app after any writes that act in other apps.
use open_aura.Prelude.{◌≡◌, ◌≢◌, refl, List, All, arith}
use open_aura.Schema.{Uuid, Db}
use open_aura.Schema.Writes.{
  insert_app, update_app, delete_app, insert_role_assignment, update_role_assignment,
  delete_role_assignment, insert_permission, delete_permission, insert_admin_api_key,
  revoke_admin_api_key,
}
use open_aura.Effect.{Env, World}
use open_aura.Effect.Keeps.{StableUnder}
use open_aura.System.Statements.{StatementsKeep}
use open_aura.System.Requests.{Write, Owned, run_all}
use open_aura.System.Invariants.{run_all-Keeps}
use open_aura.System.Isolation.{View, view, Sees}
use open_aura.System.Isolation.Owners
use open_aura.System.Isolation.Names

module _ (b : Uuid) (v : View) where
  other_tables-Sees :
      (db db' : Db)
      → db'.tenants ≡ db.tenants
      → db'.users ≡ db.users
      → db'.roles ≡ db.roles
      → db'.resources ≡ db.resources
      → db'.actions ≡ db.actions
      → db'.api_keys ≡ db.api_keys
      → db'.user_identities ≡ db.user_identities
      → Sees b v db
      → Sees b v db'
  other_tables-Sees db db' e1 e2 e3 e4 e5 e6 e7 k = rw (e1, e2, e3, e4, e5, e6, e7) k

  pub statements_isolate : StatementsKeep (λ app. app ≢ b) (Sees b v)
  unfolding insert_app update_app delete_app insert_role_assignment update_role_assignment
      delete_role_assignment insert_permission delete_permission insert_admin_api_key
      revoke_admin_api_key
  statements_isolate = record {
    tenant_inserted = Owners.insert_tenant-Sees b v;
    tenant_updated = Owners.update_tenant-Sees b v;
    tenant_deleted = Owners.delete_tenant-Sees b v;
    user_inserted = Owners.insert_user-Sees b v;
    user_updated = Owners.update_user-Sees b v;
    user_deleted = Owners.delete_user-Sees b v;
    role_inserted = Names.insert_role-Sees b v;
    role_updated = Names.update_role-Sees b v;
    role_deleted = Names.delete_role-Sees b v;
    resource_inserted = Names.insert_resource-Sees b v;
    resource_updated = Names.update_resource-Sees b v;
    resource_deleted = Names.delete_resource-Sees b v;
    action_inserted = Names.insert_action-Sees b v;
    action_updated = Names.update_action-Sees b v;
    action_deleted = Names.delete_action-Sees b v;
    api_key_inserted = Owners.insert_api_key-Sees b v;
    api_key_revoked = Owners.revoke_api_key-Sees b v;
    identity_inserted = Owners.insert_identity-Sees b v;
    app_inserted = λ r db k a db' h.
        other_tables-Sees db db' (ground arith) (ground arith) (ground arith) (ground arith)
          (ground arith) (ground arith) (ground arith) k;
    app_updated = λ p n m t db k a db' h.
        other_tables-Sees db db' (ground arith) (ground arith) (ground arith) (ground arith)
          (ground arith) (ground arith) (ground arith) k;
    app_deleted = λ p t db k a db' h.
        other_tables-Sees db db' (ground arith) (ground arith) (ground arith) (ground arith)
          (ground arith) (ground arith) (ground arith) k;
    role_assignment_inserted = λ r db k a db' h.
        other_tables-Sees db db' (ground arith) (ground arith) (ground arith) (ground arith)
          (ground arith) (ground arith) (ground arith) k;
    role_assignment_updated = λ p u r n t db k a db' h.
        other_tables-Sees db db' (ground arith) (ground arith) (ground arith) (ground arith)
          (ground arith) (ground arith) (ground arith) k;
    role_assignment_deleted = λ p t db k a db' h.
        other_tables-Sees db db' (ground arith) (ground arith) (ground arith) (ground arith)
          (ground arith) (ground arith) (ground arith) k;
    permission_inserted = λ r db k a db' h.
        other_tables-Sees db db' (ground arith) (ground arith) (ground arith) (ground arith)
          (ground arith) (ground arith) (ground arith) k;
    permission_deleted = λ p t db k a db' h.
        other_tables-Sees db db' (ground arith) (ground arith) (ground arith) (ground arith)
          (ground arith) (ground arith) (ground arith) k;
    admin_api_key_inserted = λ r db k a db' h.
        other_tables-Sees db db' (ground arith) (ground arith) (ground arith) (ground arith)
          (ground arith) (ground arith) (ground arith) k;
    admin_api_key_revoked = λ p t db k a db' h.
        other_tables-Sees db db' (ground arith) (ground arith) (ground arith) (ground arith)
          (ground arith) (ground arith) (ground arith) k;
  }

-- Any writes of the API that act in other apps, in any order, with any faults and with interference
-- that leaves the rows of the app `b` alone, leave them as they were: its tenants, users, roles,
-- resources, actions, API keys and identities.
pub run_all-isolates :
    (b : Uuid) (qs : List Write) (env : Env) (w : World)
    → All (Owned (λ app. app ≢ b)) qs
    → StableUnder (Sees b (view b w.db)) env
    → view b (run_all qs env w).db ≡ view b w.db
run_all-isolates b qs env w o st =
    run_all-Keeps (λ app. app ≢ b) (Sees b (view b w.db)) (statements_isolate b (view b w.db)) qs
      env w o st refl
