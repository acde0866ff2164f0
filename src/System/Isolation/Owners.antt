-- ===== src/System/Isolation/Owners.antt =====
-- The statements that write tenants, users, API keys and identities of other apps.
use open_aura.Prelude.{◌≡◌, ◌≢◌, refl, sym, subst, ◌==◌, ◌&&◌, [], ◌∷◌, ◌++◌, arith, some, String}
use open_aura.Json.{Fields}
use open_aura.Schema.{is_null, Uuid, Time, Tenant, User, ApiKeyRow, IdentityRow}
use open_aura.Schema.Writes.{
  insert_tenant, update_tenant, delete_tenant, insert_user, update_user, delete_user,
  insert_api_key, revoke_api_key, insert_identity,
}
use open_aura.Sql.{update_rows}
use open_aura.Effect.Keeps.{WriteKeeps}
use open_aura.System.Isolation.{View, Sees, other_added, other_updated}

module _ (b : Uuid) (v : View) where
  pub insert_tenant-Sees : (r : Tenant) → r.app_id ≢ b → WriteKeeps (Sees b v) (insert_tenant r)
  unfolding insert_tenant
  insert_tenant-Sees r n db k a db' h =
      let e : db' ≡ record db { tenants = db.tenants ++ r ∷ [] } = ground arith in
      subst (Sees b v) (sym e) (rw (other_added (λ (s : Tenant). s.app_id) b db.tenants r n) k)

  pub update_tenant-Sees :
      (app id : Uuid)
      → app ≢ b
      → (metadata : Fields) (t : Time)
      → WriteKeeps (Sees b v) (
          update_tenant
            (λ r. r.id == id && r.app_id == app && is_null r.deleted_at)
            (λ r. record r { metadata = metadata; updated_at = t }))
  unfolding update_tenant
  update_tenant-Sees app id n metadata t db k a db' h =
      let e : db' ≡ record db {
        tenants =
            update_rows (λ r. r.id == id && r.app_id == app && is_null r.deleted_at)
              (λ r. record r { metadata = metadata; updated_at = t }) db.tenants;
      } =
        ground arith in
      subst (Sees b v) (sym e) (
        rw
          (other_updated (λ (s : Tenant). s.app_id) b (λ s. s.id) (λ s. is_null s.deleted_at) id app
            (λ r. record r { metadata = metadata; updated_at = t }) db.tenants n (λ r. refl))
          k)

  pub delete_tenant-Sees :
      (app id : Uuid)
      → app ≢ b
      → (t : Time)
      → WriteKeeps
          (Sees b v)
          (delete_tenant (λ r. r.id == id && r.app_id == app && is_null r.deleted_at) t)
  unfolding delete_tenant
  delete_tenant-Sees app id n t db k a db' h =
      let e : db' ≡ record db {
        tenants =
            update_rows (λ r. r.id == id && r.app_id == app && is_null r.deleted_at)
              (λ r. record r { deleted_at = some t; updated_at = t }) db.tenants;
      } =
        ground arith in
      subst (Sees b v) (sym e) (
        rw
          (other_updated (λ (s : Tenant). s.app_id) b (λ s. s.id) (λ s. is_null s.deleted_at) id app
            (λ r. record r { deleted_at = some t; updated_at = t }) db.tenants n (λ r. refl))
          k)

  pub insert_user-Sees : (r : User) → r.app_id ≢ b → WriteKeeps (Sees b v) (insert_user r)
  unfolding insert_user
  insert_user-Sees r n db k a db' h =
      let e : db' ≡ record db { users = db.users ++ r ∷ [] } = ground arith in
      subst (Sees b v) (sym e) (rw (other_added (λ (s : User). s.app_id) b db.users r n) k)

  pub update_user-Sees :
      (app id : Uuid)
      → app ≢ b
      → (email : String) (metadata : Fields) (t : Time)
      → WriteKeeps (Sees b v) (
          update_user
            (λ r. r.id == id && r.app_id == app && is_null r.deleted_at)
            (λ r. record r { email = email; metadata = metadata; updated_at = t }))
  unfolding update_user
  update_user-Sees app id n email metadata t db k a db' h =
      let e : db' ≡ record db {
        users =
            update_rows (λ r. r.id == id && r.app_id == app && is_null r.deleted_at)
              (λ r. record r { email = email; metadata = metadata; updated_at = t }) db.users;
      } =
        ground arith in
      subst (Sees b v) (sym e) (
        rw
          (other_updated (λ (s : User). s.app_id) b (λ s. s.id) (λ s. is_null s.deleted_at) id app
            (λ r. record r { email = email; metadata = metadata; updated_at = t }) db.users n
            (λ r. refl))
          k)

  pub delete_user-Sees :
      (app id : Uuid)
      → app ≢ b
      → (t : Time)
      → WriteKeeps
          (Sees b v)
          (delete_user (λ r. r.id == id && r.app_id == app && is_null r.deleted_at) t)
  unfolding delete_user
  delete_user-Sees app id n t db k a db' h =
      let e : db' ≡ record db {
        users =
            update_rows (λ r. r.id == id && r.app_id == app && is_null r.deleted_at)
              (λ r. record r { deleted_at = some t; updated_at = t }) db.users;
      } =
        ground arith in
      subst (Sees b v) (sym e) (
        rw
          (other_updated (λ (s : User). s.app_id) b (λ s. s.id) (λ s. is_null s.deleted_at) id app
            (λ r. record r { deleted_at = some t; updated_at = t }) db.users n (λ r. refl))
          k)

  pub insert_api_key-Sees :
      (r : ApiKeyRow) → r.app_id ≢ b → WriteKeeps (Sees b v) (insert_api_key r)
  unfolding insert_api_key
  insert_api_key-Sees r n db k a db' h =
      let e : db' ≡ record db { api_keys = db.api_keys ++ r ∷ [] } = ground arith in
      subst (Sees b v) (sym e) (rw (other_added (λ (s : ApiKeyRow). s.app_id) b db.api_keys r n) k)

  pub revoke_api_key-Sees :
      (app id : Uuid)
      → app ≢ b
      → (t : Time)
      → WriteKeeps
          (Sees b v)
          (revoke_api_key (λ r. r.id == id && r.app_id == app && is_null r.revoked_at) t)
  unfolding revoke_api_key
  revoke_api_key-Sees app id n t db k a db' h =
      let e : db' ≡ record db {
        api_keys =
            update_rows (λ r. r.id == id && r.app_id == app && is_null r.revoked_at)
              (λ r. record r { revoked_at = some t }) db.api_keys;
      } =
        ground arith in
      subst (Sees b v) (sym e) (
        rw
          (other_updated (λ (s : ApiKeyRow). s.app_id) b (λ s. s.id) (λ s. is_null s.revoked_at) id
            app (λ r. record r { revoked_at = some t }) db.api_keys n (λ r. refl))
          k)

  pub insert_identity-Sees :
      (r : IdentityRow) → r.app_id ≢ b → WriteKeeps (Sees b v) (insert_identity r)
  unfolding insert_identity
  insert_identity-Sees r n db k a db' h =
      let e : db' ≡ record db { user_identities = db.user_identities ++ r ∷ [] } = ground arith in
      subst (Sees b v) (sym e)
        (rw (other_added (λ (s : IdentityRow). s.app_id) b db.user_identities r n) k)
