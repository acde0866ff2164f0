-- ===== src/System/Writes/Tenants.antt =====
-- The writes to tenants keep what the statements keep.
use open_aura.Prelude.{Option, none, some}
use open_aura.Json.{RawMessage}
use open_aura.Schema.{Uuid, Db}
use open_aura.Effect.Keeps.{Keeps, keeps_rules}
use open_aura.Httpx.Replies.{Keeps-require_metadata}
use open_aura.System.Statements.{StatementsKeep}
use open_aura.Tenant

module _ (A : Uuid → Type 0) (P : Db → Type 0) (k : StatementsKeep A P) where
  pub create-Keeps :
      (app : Uuid) → A app → (i : Tenant.CreateInput) → Keeps P (Tenant.Repository.create app i)
  unfolding Tenant.Repository.create
  create-Keeps app own i = search (keeps_rules, Keeps-require_metadata, k.tenant_inserted) depth 16

  pub delete-Keeps :
      (app : Uuid) → A app → (id : Uuid) → Keeps P (Tenant.Repository.soft_delete app id)
  unfolding Tenant.Repository.soft_delete
  delete-Keeps app own id = search (keeps_rules, k.tenant_deleted) depth 16

  updated-Keeps :
      (app : Uuid)
      → A app
      → (id : Uuid) (given : Option RawMessage)
      → Keeps P (Tenant.Repository.update app id (record { metadata = given }))
  unfolding Tenant.Repository.update
  updated-Keeps app own id none = search keeps_rules
  updated-Keeps app own id (some raw) =
      search (keeps_rules, Keeps-require_metadata, k.tenant_updated app id own) depth 16

  pub update-Keeps :
      (app : Uuid)
      → A app
      → (id : Uuid) (i : Tenant.UpdateInput) → Keeps P (Tenant.Repository.update app id i)
  update-Keeps app own id i = updated-Keeps app own id i.metadata
