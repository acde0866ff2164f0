-- ===== src/Server/Handlers/Permissions.antt =====
-- What the handlers of internal/permission keep.
use open_aura.Prelude.{Option}
use open_aura.Schema.{Db, Uuid}
use open_aura.Httpx.{Request}
use open_aura.System.Statements.{StatementsKeep}
use open_aura.System.Writes.Permissions as Writes
use open_aura.Permission
use open_aura.Server.InApp.{KeepsIn, KeepsIn-require_app_id, handler_rules}

module _ (A : Uuid → Type 0) (P : Db → Type 0) (k : StatementsKeep A P) where
  pub create-KeepsIn :
      (r : Request) (body : Option Permission.CreateInput)
      → KeepsIn A P r.ctx (Permission.Handler.create r body)
  unfolding Permission.Handler.create
  create-KeepsIn r body =
      KeepsIn-require_app_id A P r _
        (λ app own. search (handler_rules, Writes.create-Keeps A P k) depth 16)

  pub get-KeepsIn : (r : Request) → KeepsIn A P r.ctx (Permission.Handler.get r)
  unfolding Permission.Handler.get Permission.Repository.get_by_id
  get-KeepsIn r = KeepsIn-require_app_id A P r _ (λ app own. search (handler_rules) depth 16)

  pub list-KeepsIn : (r : Request) → KeepsIn A P r.ctx (Permission.Handler.list r)
  unfolding Permission.Handler.list Permission.Repository.list
  list-KeepsIn r = KeepsIn-require_app_id A P r _ (λ app own. search (handler_rules) depth 16)

  pub delete-KeepsIn : (r : Request) → KeepsIn A P r.ctx (Permission.Handler.delete r)
  unfolding Permission.Handler.delete
  delete-KeepsIn r =
      KeepsIn-require_app_id A P r _
        (λ app own. search (handler_rules, Writes.delete-Keeps A P k) depth 16)
