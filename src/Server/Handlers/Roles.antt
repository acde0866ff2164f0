-- ===== src/Server/Handlers/Roles.antt =====
-- What the handlers of internal/role keep.
use open_aura.Prelude.{Option}
use open_aura.Schema.{Db, Uuid}
use open_aura.Httpx.{Request}
use open_aura.System.Statements.{StatementsKeep}
use open_aura.System.Writes.Roles as Writes
use open_aura.Role
use open_aura.Server.InApp.{KeepsIn, KeepsIn-require_app_id, handler_rules}

module _ (A : Uuid → Type 0) (P : Db → Type 0) (k : StatementsKeep A P) where
  pub create-KeepsIn :
      (r : Request) (body : Option Role.CreateInput)
      → KeepsIn A P r.ctx (Role.Handler.create r body)
  unfolding Role.Handler.create
  create-KeepsIn r body =
      KeepsIn-require_app_id A P r _
        (λ app own. search (handler_rules, Writes.create-Keeps A P k) depth 16)

  pub get-KeepsIn : (r : Request) → KeepsIn A P r.ctx (Role.Handler.get r)
  unfolding Role.Handler.get Role.Repository.get_by_id
  get-KeepsIn r = KeepsIn-require_app_id A P r _ (λ app own. search (handler_rules) depth 16)

  pub list-KeepsIn : (r : Request) → KeepsIn A P r.ctx (Role.Handler.list r)
  unfolding Role.Handler.list Role.Repository.list
  list-KeepsIn r = KeepsIn-require_app_id A P r _ (λ app own. search (handler_rules) depth 16)

  pub update-KeepsIn :
      (r : Request) (body : Option Role.UpdateInput)
      → KeepsIn A P r.ctx (Role.Handler.update r body)
  unfolding Role.Handler.update
  update-KeepsIn r body =
      KeepsIn-require_app_id A P r _
        (λ app own. search (handler_rules, Writes.update-Keeps A P k) depth 16)

  pub delete-KeepsIn : (r : Request) → KeepsIn A P r.ctx (Role.Handler.delete r)
  unfolding Role.Handler.delete
  delete-KeepsIn r =
      KeepsIn-require_app_id A P r _
        (λ app own. search (handler_rules, Writes.delete-Keeps A P k) depth 16)
