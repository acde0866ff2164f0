-- ===== src/Schema/Writes/Parties.antt =====
-- The statements that write apps, tenants and users.
use open_aura.Prelude.{ℕ, Bool, none, some, [], ◌∷◌, ◌++◌, any, ◌==◌, if◌then◌else◌}
use open_aura.Schema.{Time, Db, App, Tenant, User}
use open_aura.Sql.{select_one, update_rows, refuses_insert, refuses_update}
use open_aura.Store.{no_rows}
use open_aura.Effect.{ok, err}
use open_aura.Schema.Constraints.{
  Outcome, unique_violation, foreign_key_violation, affected, app_table, tenant_table, user_table,
  resource_table, action_table, role_assignment_table, permission_table, api_key_table,
  admin_api_key_table, identity_table,
}

-- INSERT INTO apps ... RETURNING
unfoldable pub insert_app : App → Db → Outcome App
insert_app r db =
    if refuses_insert r db.apps
    then err unique_violation
    else ok (r, record db { apps = db.apps ++ r ∷ [] })

-- UPDATE apps SET f WHERE p RETURNING
unfoldable pub update_app : (App → Bool) → (App → App) → Db → Outcome App
update_app p f db = elim (select_one p db.apps) [
  | none ↦ err no_rows
  | some r ↦
      if refuses_update p f db.apps
      then err unique_violation
      else ok (f r, record db { apps = update_rows p f db.apps })
]

-- UPDATE apps SET deleted_at, updated_at = now WHERE p, for the number of rows
unfoldable pub delete_app : (App → Bool) → Time → Db → Outcome ℕ
delete_app p now db = ok (
  affected p db.apps,
  record db {
    apps = update_rows p (λ r. record r { deleted_at = some now; updated_at = now }) db.apps;
  },
)

-- INSERT INTO tenants ... RETURNING
unfoldable pub insert_tenant : Tenant → Db → Outcome Tenant
insert_tenant r db =
    if refuses_insert r db.tenants
    then err unique_violation
    else if any (λ x. x.id == r.app_id) db.apps
    then ok (r, record db { tenants = db.tenants ++ r ∷ [] })
    else err foreign_key_violation

-- UPDATE tenants SET f WHERE p RETURNING
unfoldable pub update_tenant : (Tenant → Bool) → (Tenant → Tenant) → Db → Outcome Tenant
update_tenant p f db = elim (select_one p db.tenants) [
  | none ↦ err no_rows
  | some r ↦
      if refuses_update p f db.tenants
      then err unique_violation
      else ok (f r, record db { tenants = update_rows p f db.tenants })
]

-- UPDATE tenants SET deleted_at, updated_at = now WHERE p, for the number of rows
unfoldable pub delete_tenant : (Tenant → Bool) → Time → Db → Outcome ℕ
delete_tenant p now db = ok (
  affected p db.tenants,
  record db {
    tenants = update_rows p (λ r. record r { deleted_at = some now; updated_at = now }) db.tenants;
  },
)

-- INSERT INTO users ... RETURNING
unfoldable pub insert_user : User → Db → Outcome User
insert_user r db =
    if refuses_insert r db.users
    then err unique_violation
    else if any (λ x. x.id == r.app_id) db.apps
    then ok (r, record db { users = db.users ++ r ∷ [] })
    else err foreign_key_violation

-- UPDATE users SET f WHERE p RETURNING
unfoldable pub update_user : (User → Bool) → (User → User) → Db → Outcome User
update_user p f db = elim (select_one p db.users) [
  | none ↦ err no_rows
  | some r ↦
      if refuses_update p f db.users
      then err unique_violation
      else ok (f r, record db { users = update_rows p f db.users })
]

-- UPDATE users SET deleted_at, updated_at = now WHERE p, for the number of rows
unfoldable pub delete_user : (User → Bool) → Time → Db → Outcome ℕ
delete_user p now db = ok (
  affected p db.users,
  record db {
    users = update_rows p (λ r. record r { deleted_at = some now; updated_at = now }) db.users;
  },
)
