-- ===== src/System/Writes/Keys.antt =====
-- The writes to the two kinds of keys keep what the statements keep.
use open_aura.Prelude.{Option, String}
use open_aura.Schema.{Uuid, Db}
use open_aura.Effect.{M}
use open_aura.Effect.Keeps.{Keeps, keeps_rules}
use open_aura.Httpx.Replies.{Keeps-require_metadata}
use open_aura.System.Statements.{StatementsKeep}
use open_aura.ApiKey
use open_aura.AdminApiKey
use open_aura.Auth.{new_api_key}
use open_aura.Store.{DbError}

module _ (A : Uuid → Type 0) (P : Db → Type 0) (k : StatementsKeep A P) where
  Keeps-new_api_key : (prefix : String) → Keeps P (new_api_key prefix)
  unfolding new_api_key
  Keeps-new_api_key prefix = search keeps_rules

  Keeps-require_active_app : (app : Uuid) → Keeps P (ApiKey.Repository.require_active_app app)
  unfolding ApiKey.Repository.require_active_app
  Keeps-require_active_app app = search keeps_rules

  pub create-Keeps :
      (app : Uuid) → A app → (i : ApiKey.CreateInput) → Keeps P (ApiKey.Repository.create app i)
  unfolding ApiKey.Repository.create
  create-Keeps app own i =
      search
        (
          keeps_rules, Keeps-require_metadata, Keeps-new_api_key, Keeps-require_active_app,
          k.api_key_inserted,
        )
        depth 20

  pub revoke-Keeps : (app : Uuid) → A app → (id : Uuid) → Keeps P (ApiKey.Repository.revoke app id)
  unfolding ApiKey.Repository.revoke
  revoke-Keeps app own id = search (keeps_rules, k.api_key_revoked) depth 16

  Keeps-insert_with_hash :
      (raw hash : String) (name : Option String)
      → Keeps P (AdminApiKey.Repository.insert_with_hash raw hash name)
  unfolding AdminApiKey.Repository.insert_with_hash
  Keeps-insert_with_hash raw hash name = search (keeps_rules, k.admin_api_key_inserted) depth 16

  pub create_admin-Keeps : (i : AdminApiKey.CreateInput) → Keeps P (AdminApiKey.Repository.create i)
  unfolding AdminApiKey.Repository.create
  create_admin-Keeps i = search (keeps_rules, Keeps-new_api_key, Keeps-insert_with_hash) depth 16

  Keeps-row_exists :
      (m : M DbError (Unit {0})) → Keeps P m → Keeps P (AdminApiKey.Repository.row_exists m)
  unfolding AdminApiKey.Repository.row_exists
  Keeps-row_exists m h = record { at = λ env st w p. h.at env st w p }

  pub ensure-Keeps :
      (raw name : String) → Keeps P (AdminApiKey.Repository.ensure_bootstrap_key raw name)
  unfolding AdminApiKey.Repository.ensure_bootstrap_key
  ensure-Keeps raw name = search (keeps_rules, Keeps-row_exists, Keeps-insert_with_hash) depth 16

  pub revoke_admin-Keeps : (id : Uuid) → Keeps P (AdminApiKey.Repository.revoke id)
  unfolding AdminApiKey.Repository.revoke
  revoke_admin-Keeps id = search (keeps_rules, k.admin_api_key_revoked) depth 16
