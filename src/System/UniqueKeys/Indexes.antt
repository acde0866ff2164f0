-- ===== src/System/UniqueKeys/Indexes.antt =====
-- The writes of the API under the unique indexes of api_keys, admin_api_keys and user_identities.
use open_aura.Prelude.{◌==◌, ◌&&◌, ◌≡◌, sym, subst, Bool, false, List, ◌∷◌, [], arith, ◌++◌, some}
use open_aura.Schema.{is_null, Db, Time, ApiKeyRow, AdminApiKeyRow, IdentityRow}
use open_aura.Schema.Constraints.{api_key_table, admin_api_key_table, identity_table}
use open_aura.Schema.Writes.{
  insert_app, update_app, delete_app, insert_tenant, update_tenant, delete_tenant, insert_user,
  update_user, delete_user, insert_role, update_role, delete_role, insert_resource, update_resource,
  delete_resource, insert_action, update_action, delete_action, insert_role_assignment,
  update_role_assignment, delete_role_assignment, insert_permission, delete_permission,
  insert_api_key, revoke_api_key, insert_admin_api_key, revoke_admin_api_key, insert_identity,
}
use open_aura.Sql.{update_rows, refuses_insert}
use open_aura.Sql.Unique.{NoClash, NoClash-append, NoClash-update_rows, accepted_row}
use open_aura.Effect.Keeps.{WriteKeeps}
use open_aura.System.Statements.{StatementsKeep}

-- No row is refused beside another one by the unique indexes of the keys and the identities.
pub record KeepsIndexes (db : Db) : Type 0 where
  pub app_keys : NoClash api_key_table.clash db.api_keys
  pub admin_keys : NoClash admin_api_key_table.clash db.admin_api_keys
  pub identities : NoClash identity_table.clash db.user_identities

-- The tables that the invariant is about.
abbrev key_tables : Db → List ApiKeyRow × List AdminApiKeyRow × List IdentityRow
key_tables db = (db.api_keys, db.admin_api_keys, db.user_identities)

other_tables : (db db' : Db) → key_tables db' ≡ key_tables db → KeepsIndexes db → KeepsIndexes db'
other_tables db db' e k = record {
  app_keys = subst (λ t. NoClash api_key_table.clash t.0) (sym e) k.app_keys;
  admin_keys = subst (λ t. NoClash admin_api_key_table.clash t.1) (sym e) k.admin_keys;
  identities = subst (λ t. NoClash identity_table.clash t.2) (sym e) k.identities;
}

insert_api_key-KeepsIndexes : (r : ApiKeyRow) → WriteKeeps KeepsIndexes (insert_api_key r)
unfolding insert_api_key
insert_api_key-KeepsIndexes r db k a db' h =
    let fresh : refuses_insert r db.api_keys ≡ false = ground arith in
    let e : db' ≡ record db { api_keys = db.api_keys ++ r ∷ [] } = ground arith in
    subst KeepsIndexes (sym e) (record {
      app_keys = NoClash-append _ db.api_keys r (accepted_row r db.api_keys fresh).1 k.app_keys;
      admin_keys = k.admin_keys;
      identities = k.identities;
    })

insert_admin_api_key-KeepsIndexes :
    (r : AdminApiKeyRow) → WriteKeeps KeepsIndexes (insert_admin_api_key r)
unfolding insert_admin_api_key
insert_admin_api_key-KeepsIndexes r db k a db' h =
    let fresh : refuses_insert r db.admin_api_keys ≡ false = ground arith in
    let e : db' ≡ record db { admin_api_keys = db.admin_api_keys ++ r ∷ [] } = ground arith in
    subst KeepsIndexes (sym e) (record {
      app_keys = k.app_keys;
      admin_keys =
          NoClash-append _ db.admin_api_keys r (accepted_row r db.admin_api_keys fresh).1
            k.admin_keys;
      identities = k.identities;
    })

insert_identity-KeepsIndexes : (r : IdentityRow) → WriteKeeps KeepsIndexes (insert_identity r)
unfolding insert_identity
insert_identity-KeepsIndexes r db k a db' h =
    let fresh : refuses_insert r db.user_identities ≡ false = ground arith in
    let e : db' ≡ record db { user_identities = db.user_identities ++ r ∷ [] } = ground arith in
    subst KeepsIndexes (sym e) (record {
      app_keys = k.app_keys;
      admin_keys = k.admin_keys;
      identities =
          NoClash-append _ db.user_identities r (accepted_row r db.user_identities fresh).1
            k.identities;
    })

revoke_api_key-KeepsIndexes :
    (p : ApiKeyRow → Bool) (t : Time) → WriteKeeps KeepsIndexes (revoke_api_key p t)
unfolding revoke_api_key
revoke_api_key-KeepsIndexes p t db k a db' h =
    let e : db' ≡ record db {
      api_keys = update_rows p (λ r. record r { revoked_at = some t }) db.api_keys;
    } =
      ground arith in
    subst KeepsIndexes (sym e) (record {
      app_keys = NoClash-update_rows _ p _ db.api_keys (λ r s h. h) (λ r s h. h) k.app_keys;
      admin_keys = k.admin_keys;
      identities = k.identities;
    })

revoke_admin_api_key-KeepsIndexes :
    (p : AdminApiKeyRow → Bool) (t : Time) → WriteKeeps KeepsIndexes (revoke_admin_api_key p t)
unfolding revoke_admin_api_key
revoke_admin_api_key-KeepsIndexes p t db k a db' h =
    let e : db' ≡ record db {
      admin_api_keys = update_rows p (λ r. record r { revoked_at = some t }) db.admin_api_keys;
    } =
      ground arith in
    subst KeepsIndexes (sym e) (record {
      app_keys = k.app_keys;
      admin_keys =
          NoClash-update_rows _ p _ db.admin_api_keys (λ r s h. h) (λ r s h. h) k.admin_keys;
      identities = k.identities;
    })

pub indexes_keep : StatementsKeep (λ app. Unit) KeepsIndexes
unfolding insert_app update_app delete_app insert_tenant update_tenant delete_tenant insert_user
    update_user delete_user insert_role update_role delete_role insert_resource update_resource
    delete_resource insert_action update_action delete_action insert_role_assignment
    update_role_assignment delete_role_assignment insert_permission delete_permission
indexes_keep = record {
  app_inserted = λ r db k a db' h. other_tables db db' (ground arith) k;
  app_updated = λ p n m t db k a db' h. other_tables db db' (ground arith) k;
  app_deleted = λ p t db k a db' h. other_tables db db' (ground arith) k;
  tenant_inserted = λ r own db k a db' h. other_tables db db' (ground arith) k;
  tenant_updated = λ app id own m t db k a db' h. other_tables db db' (ground arith) k;
  tenant_deleted = λ app id own t db k a db' h. other_tables db db' (ground arith) k;
  user_inserted = λ r own db k a db' h. other_tables db db' (ground arith) k;
  user_updated = λ app id own n m t db k a db' h. other_tables db db' (ground arith) k;
  user_deleted = λ app id own t db k a db' h. other_tables db db' (ground arith) k;
  role_inserted = λ j r own db k a db' h. other_tables db db' (ground arith) k;
  role_updated = λ app id own j m t db k a db' h. other_tables db db' (ground arith) k;
  role_deleted = λ app id own t db k a db' h. other_tables db db' (ground arith) k;
  resource_inserted = λ r own db k a db' h. other_tables db db' (ground arith) k;
  resource_updated = λ app id own n m t db k a db' h. other_tables db db' (ground arith) k;
  resource_deleted = λ app id own t db k a db' h. other_tables db db' (ground arith) k;
  action_inserted = λ r own db k a db' h. other_tables db db' (ground arith) k;
  action_updated = λ app id own n m t db k a db' h. other_tables db db' (ground arith) k;
  action_deleted = λ app id own t db k a db' h. other_tables db db' (ground arith) k;
  role_assignment_inserted = λ r db k a db' h. other_tables db db' (ground arith) k;
  role_assignment_updated = λ p u r n t db k a db' h. other_tables db db' (ground arith) k;
  role_assignment_deleted = λ p t db k a db' h. other_tables db db' (ground arith) k;
  permission_inserted = λ r db k a db' h. other_tables db db' (ground arith) k;
  permission_deleted = λ p t db k a db' h. other_tables db db' (ground arith) k;
  api_key_inserted = λ r own. insert_api_key-KeepsIndexes r;
  api_key_revoked = λ app id own t.
      revoke_api_key-KeepsIndexes (λ r. r.id == id && r.app_id == app && is_null r.revoked_at) t;
  admin_api_key_inserted = insert_admin_api_key-KeepsIndexes;
  admin_api_key_revoked = revoke_admin_api_key-KeepsIndexes;
  identity_inserted = λ r own. insert_identity-KeepsIndexes r;
}
