-- ===== src/Server/Handlers/Tenants.antt =====
-- What the handlers of internal/tenant keep.
use open_aura.Prelude.{Option}
use open_aura.Schema.{Db, Uuid}
use open_aura.Httpx.{Request}
use open_aura.System.Statements.{StatementsKeep}
use open_aura.System.Writes.Tenants as Writes
use open_aura.Tenant
use open_aura.Server.InApp.{KeepsIn, KeepsIn-require_app_id, handler_rules}

module _ (A : Uuid → Type 0) (P : Db → Type 0) (k : StatementsKeep A P) where
  pub create-KeepsIn :
      (r : Request) (body : Option Tenant.CreateInput)
      → KeepsIn A P r.ctx (Tenant.Handler.create r body)
  unfolding Tenant.Handler.create
  create-KeepsIn r body =
      KeepsIn-require_app_id A P r _
        (λ app own. search (handler_rules, Writes.create-Keeps A P k) depth 16)

  pub get-KeepsIn : (r : Request) → KeepsIn A P r.ctx (Tenant.Handler.get r)
  unfolding Tenant.Handler.get Tenant.Repository.get_by_id
  get-KeepsIn r = KeepsIn-require_app_id A P r _ (λ app own. search (handler_rules) depth 16)

  pub list-KeepsIn : (r : Request) → KeepsIn A P r.ctx (Tenant.Handler.list r)
  unfolding Tenant.Handler.list Tenant.Repository.list
  list-KeepsIn r = KeepsIn-require_app_id A P r _ (λ app own. search (handler_rules) depth 16)

  pub update-KeepsIn :
      (r : Request) (body : Option Tenant.UpdateInput)
      → KeepsIn A P r.ctx (Tenant.Handler.update r body)
  unfolding Tenant.Handler.update
  update-KeepsIn r body =
      KeepsIn-require_app_id A P r _
        (λ app own. search (handler_rules, Writes.update-Keeps A P k) depth 16)

  pub delete-KeepsIn : (r : Request) → KeepsIn A P r.ctx (Tenant.Handler.delete r)
  unfolding Tenant.Handler.delete
  delete-KeepsIn r =
      KeepsIn-require_app_id A P r _
        (λ app own. search (handler_rules, Writes.delete-Keeps A P k) depth 16)
