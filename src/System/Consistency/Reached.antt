-- ===== src/System/Consistency/Reached.antt =====
-- The consistency holds in every database that the service reaches.
use open_aura.Prelude.{◌==◌, ◌&&◌, ◌≡◌, refl, sym, subst, Bool, List, arith}
use open_aura.Schema.{is_null, Db, Time, ApiKeyRow, AdminApiKeyRow, IdentityRow}
use open_aura.Schema.Writes.{
  insert_api_key, revoke_api_key, insert_admin_api_key, revoke_admin_api_key, insert_identity,
}
use open_aura.Effect.{Env, World}
use open_aura.Effect.Keeps.{WriteKeeps, StableUnder}
use open_aura.System.Statements.{StatementsKeep}
use open_aura.System.Requests.{Write, run_all}
use open_aura.System.Invariants.{run_all-Keeps_any}
use open_aura.System.Consistency.{IsConsistent}
use open_aura.System.Consistency.Owners
use open_aura.System.Consistency.Names
use open_aura.System.Consistency.Links

-- A statement that leaves the entities and their links alone.
abbrev OnlyKeys : Db → Db → Type 0
OnlyKeys db db' = db' ≡ record db {
  api_keys = db'.api_keys;
  admin_api_keys = db'.admin_api_keys;
  user_identities = db'.user_identities;
}

OnlyKeys-IsConsistent : (db db' : Db) → OnlyKeys db db' → IsConsistent db → IsConsistent db'
OnlyKeys-IsConsistent db db' e k =
    subst IsConsistent (sym e) (record { assignments = k.assignments; permissions = k.permissions })

insert_api_key-IsConsistent : (r : ApiKeyRow) → WriteKeeps IsConsistent (insert_api_key r)
unfolding insert_api_key
insert_api_key-IsConsistent r db k a db' h = OnlyKeys-IsConsistent db db' (ground arith) k

insert_admin_api_key-IsConsistent :
    (r : AdminApiKeyRow) → WriteKeeps IsConsistent (insert_admin_api_key r)
unfolding insert_admin_api_key
insert_admin_api_key-IsConsistent r db k a db' h = OnlyKeys-IsConsistent db db' (ground arith) k

insert_identity-IsConsistent : (r : IdentityRow) → WriteKeeps IsConsistent (insert_identity r)
unfolding insert_identity
insert_identity-IsConsistent r db k a db' h = OnlyKeys-IsConsistent db db' (ground arith) k

revoke_api_key-IsConsistent :
    (p : ApiKeyRow → Bool) (t : Time) → WriteKeeps IsConsistent (revoke_api_key p t)
unfolding revoke_api_key
revoke_api_key-IsConsistent p t db k a db' h = OnlyKeys-IsConsistent db db' (ground arith) k

revoke_admin_api_key-IsConsistent :
    (p : AdminApiKeyRow → Bool) (t : Time) → WriteKeeps IsConsistent (revoke_admin_api_key p t)
unfolding revoke_admin_api_key
revoke_admin_api_key-IsConsistent p t db k a db' h = OnlyKeys-IsConsistent db db' (ground arith) k

pub statements_keep : StatementsKeep (λ app. Unit) IsConsistent
statements_keep = record {
  app_inserted = Owners.insert_app-IsConsistent;
  app_updated = λ p name metadata t.
      Owners.update_app-IsConsistent p
        (λ r. record r { name = name; metadata = metadata; updated_at = t }) (λ r. refl);
  app_deleted = Owners.delete_app-IsConsistent;
  tenant_inserted = λ r own. Owners.insert_tenant-IsConsistent r;
  tenant_updated = λ app id own metadata t.
      Owners.update_tenant-IsConsistent (λ r. r.id == id && r.app_id == app && is_null r.deleted_at)
        (λ r. record r { metadata = metadata; updated_at = t }) (λ r. refl) (λ r. refl);
  tenant_deleted = λ app id own t.
      Owners.delete_tenant-IsConsistent (λ r. r.id == id && r.app_id == app && is_null r.deleted_at)
        t;
  user_inserted = λ r own. Owners.insert_user-IsConsistent r;
  user_updated = λ app id own email metadata t.
      Owners.update_user-IsConsistent (λ r. r.id == id && r.app_id == app && is_null r.deleted_at)
        (λ r. record r { email = email; metadata = metadata; updated_at = t }) (λ r. refl)
        (λ r. refl);
  user_deleted = λ app id own t.
      Owners.delete_user-IsConsistent (λ r. r.id == id && r.app_id == app && is_null r.deleted_at)
        t;
  role_inserted = λ json_text r own. Names.insert_role-IsConsistent json_text r;
  role_updated = λ app id own json_text metadata t.
      Names.update_role-IsConsistent json_text
        (λ r. r.id == id && r.app_id == app && is_null r.deleted_at)
        (λ r. record r { metadata = metadata; updated_at = t }) (λ r. refl) (λ r. refl);
  role_deleted = λ app id own t.
      Names.delete_role-IsConsistent (λ r. r.id == id && r.app_id == app && is_null r.deleted_at) t;
  resource_inserted = λ r own. Names.insert_resource-IsConsistent r;
  resource_updated = λ app id own name metadata t.
      Names.update_resource-IsConsistent
        (λ r. r.id == id && r.app_id == app && is_null r.deleted_at)
        (λ r. record r { name = name; metadata = metadata; updated_at = t }) (λ r. refl)
        (λ r. refl);
  resource_deleted = λ app id own t.
      Names.delete_resource-IsConsistent
        (λ r. r.id == id && r.app_id == app && is_null r.deleted_at) t;
  action_inserted = λ r own. Names.insert_action-IsConsistent r;
  action_updated = λ app id own name metadata t.
      Names.update_action-IsConsistent (λ r. r.id == id && r.app_id == app && is_null r.deleted_at)
        (λ r. record r { name = name; metadata = metadata; updated_at = t }) (λ r. refl)
        (λ r. refl);
  action_deleted = λ app id own t.
      Names.delete_action-IsConsistent (λ r. r.id == id && r.app_id == app && is_null r.deleted_at)
        t;
  role_assignment_inserted = Links.insert_role_assignment-IsConsistent;
  role_assignment_updated = λ p user role tenant t.
      Links.update_role_assignment-IsConsistent p
        (λ r. record r { user_id = user; role_id = role; tenant_id = tenant; updated_at = t })
        (λ r s. refl) (λ r s. refl) (λ r s. refl);
  role_assignment_deleted = Links.delete_role_assignment-IsConsistent;
  permission_inserted = Links.insert_permission-IsConsistent;
  permission_deleted = Links.delete_permission-IsConsistent;
  api_key_inserted = λ r own. insert_api_key-IsConsistent r;
  api_key_revoked = λ app id own t.
      revoke_api_key-IsConsistent (λ r. r.id == id && r.app_id == app && is_null r.revoked_at) t;
  admin_api_key_inserted = insert_admin_api_key-IsConsistent;
  admin_api_key_revoked = revoke_admin_api_key-IsConsistent;
  identity_inserted = λ r own. insert_identity-IsConsistent r;
}

-- From a consistent database, any writes of the API, in any order, with any faults and with any
-- interference that keeps the consistency, lead to a consistent database: each assignment joins an
-- existing user, role and tenant of one app, and each permission an existing role, resource and action
-- of one app.
pub run_all-IsConsistent :
    (qs : List Write) (env : Env) (w : World)
    → StableUnder IsConsistent env
    → IsConsistent w.db
    → IsConsistent (run_all qs env w).db
run_all-IsConsistent = run_all-Keeps_any IsConsistent statements_keep
