-- ===== src/Schema/Writes/Keys.antt =====
-- The statements that write api_keys, admin_api_keys and user_identities.
use open_aura.Prelude.{ℕ, Bool, ◌&&◌, some, [], ◌∷◌, ◌++◌, any, ◌==◌, if◌then◌else◌}
use open_aura.Schema.{Time, Db, ApiKeyRow, AdminApiKeyRow, IdentityRow}
use open_aura.Sql.{update_rows, refuses_insert}
use open_aura.Effect.{ok, err}
use open_aura.Schema.Constraints.{
  Outcome, unique_violation, foreign_key_violation, affected, app_table, tenant_table, user_table,
  resource_table, action_table, role_assignment_table, permission_table, api_key_table,
  admin_api_key_table, identity_table,
}

-- INSERT INTO api_keys ... RETURNING
unfoldable pub insert_api_key : ApiKeyRow → Db → Outcome ApiKeyRow
insert_api_key r db =
    if refuses_insert r db.api_keys
    then err unique_violation
    else if any (λ x. x.id == r.app_id) db.apps
    then ok (r, record db { api_keys = db.api_keys ++ r ∷ [] })
    else err foreign_key_violation

-- UPDATE api_keys SET revoked_at = now WHERE p, for the number of rows
unfoldable pub revoke_api_key : (ApiKeyRow → Bool) → Time → Db → Outcome ℕ
revoke_api_key p now db = ok (
  affected p db.api_keys,
  record db { api_keys = update_rows p (λ r. record r { revoked_at = some now }) db.api_keys },
)

-- INSERT INTO admin_api_keys ... RETURNING
unfoldable pub insert_admin_api_key : AdminApiKeyRow → Db → Outcome AdminApiKeyRow
insert_admin_api_key r db =
    if refuses_insert r db.admin_api_keys
    then err unique_violation
    else ok (r, record db { admin_api_keys = db.admin_api_keys ++ r ∷ [] })

-- UPDATE admin_api_keys SET revoked_at = now WHERE p, for the number of rows
unfoldable pub revoke_admin_api_key : (AdminApiKeyRow → Bool) → Time → Db → Outcome ℕ
revoke_admin_api_key p now db = ok (
  affected p db.admin_api_keys,
  record db {
    admin_api_keys = update_rows p (λ r. record r { revoked_at = some now }) db.admin_api_keys;
  },
)

-- INSERT INTO user_identities ... RETURNING
unfoldable pub insert_identity : IdentityRow → Db → Outcome IdentityRow
insert_identity r db =
    if refuses_insert r db.user_identities
    then err unique_violation
    else if any (λ x. x.id == r.app_id) db.apps && any (λ x. x.id == r.user_id) db.users
    then ok (r, record db { user_identities = db.user_identities ++ r ∷ [] })
    else err foreign_key_violation
