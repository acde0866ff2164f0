-- ===== src/Server/Handlers/Resources.antt =====
-- What the handlers of internal/resource keep.
use open_aura.Prelude.{Option}
use open_aura.Schema.{Db, Uuid}
use open_aura.Httpx.{Request}
use open_aura.System.Statements.{StatementsKeep}
use open_aura.System.Writes.Resources as Writes
use open_aura.Resource
use open_aura.Server.InApp.{KeepsIn, KeepsIn-require_app_id, handler_rules}

module _ (A : Uuid → Type 0) (P : Db → Type 0) (k : StatementsKeep A P) where
  pub create-KeepsIn :
      (r : Request) (body : Option Resource.CreateInput)
      → KeepsIn A P r.ctx (Resource.Handler.create r body)
  unfolding Resource.Handler.create
  create-KeepsIn r body =
      KeepsIn-require_app_id A P r _
        (λ app own. search (handler_rules, Writes.create-Keeps A P k) depth 16)

  pub get-KeepsIn : (r : Request) → KeepsIn A P r.ctx (Resource.Handler.get r)
  unfolding Resource.Handler.get Resource.Repository.get_by_id
  get-KeepsIn r = KeepsIn-require_app_id A P r _ (λ app own. search (handler_rules) depth 16)

  pub list-KeepsIn : (r : Request) → KeepsIn A P r.ctx (Resource.Handler.list r)
  unfolding Resource.Handler.list Resource.Repository.list
  list-KeepsIn r = KeepsIn-require_app_id A P r _ (λ app own. search (handler_rules) depth 16)

  pub update-KeepsIn :
      (r : Request) (body : Option Resource.UpdateInput)
      → KeepsIn A P r.ctx (Resource.Handler.update r body)
  unfolding Resource.Handler.update
  update-KeepsIn r body =
      KeepsIn-require_app_id A P r _
        (λ app own. search (handler_rules, Writes.update-Keeps A P k) depth 16)

  pub delete-KeepsIn : (r : Request) → KeepsIn A P r.ctx (Resource.Handler.delete r)
  unfolding Resource.Handler.delete
  delete-KeepsIn r =
      KeepsIn-require_app_id A P r _
        (λ app own. search (handler_rules, Writes.delete-Keeps A P k) depth 16)
