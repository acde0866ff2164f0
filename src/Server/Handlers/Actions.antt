-- ===== src/Server/Handlers/Actions.antt =====
-- What the handlers of internal/action keep.
use open_aura.Prelude.{Option}
use open_aura.Schema.{Db, Uuid}
use open_aura.Httpx.{Request}
use open_aura.System.Statements.{StatementsKeep}
use open_aura.System.Writes.Actions as Writes
use open_aura.Action
use open_aura.Server.InApp.{KeepsIn, KeepsIn-require_app_id, handler_rules}

module _ (A : Uuid → Type 0) (P : Db → Type 0) (k : StatementsKeep A P) where
  pub create-KeepsIn :
      (r : Request) (body : Option Action.CreateInput)
      → KeepsIn A P r.ctx (Action.Handler.create r body)
  unfolding Action.Handler.create
  create-KeepsIn r body =
      KeepsIn-require_app_id A P r _
        (λ app own. search (handler_rules, Writes.create-Keeps A P k) depth 16)

  pub get-KeepsIn : (r : Request) → KeepsIn A P r.ctx (Action.Handler.get r)
  unfolding Action.Handler.get Action.Repository.get_by_id
  get-KeepsIn r = KeepsIn-require_app_id A P r _ (λ app own. search (handler_rules) depth 16)

  pub list-KeepsIn : (r : Request) → KeepsIn A P r.ctx (Action.Handler.list r)
  unfolding Action.Handler.list Action.Repository.list
  list-KeepsIn r = KeepsIn-require_app_id A P r _ (λ app own. search (handler_rules) depth 16)

  pub update-KeepsIn :
      (r : Request) (body : Option Action.UpdateInput)
      → KeepsIn A P r.ctx (Action.Handler.update r body)
  unfolding Action.Handler.update
  update-KeepsIn r body =
      KeepsIn-require_app_id A P r _
        (λ app own. search (handler_rules, Writes.update-Keeps A P k) depth 16)

  pub delete-KeepsIn : (r : Request) → KeepsIn A P r.ctx (Action.Handler.delete r)
  unfolding Action.Handler.delete
  delete-KeepsIn r =
      KeepsIn-require_app_id A P r _
        (λ app own. search (handler_rules, Writes.delete-Keeps A P k) depth 16)
