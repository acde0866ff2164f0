-- ===== src/Server/Handlers/Keys.antt =====
-- What the handlers of internal/apikey keep.
use open_aura.Prelude.{Option}
use open_aura.Schema.{Db, Uuid}
use open_aura.Effect.Keeps.{Keeps}
use open_aura.Httpx.{Request}
use open_aura.System.Statements.{StatementsKeep}
use open_aura.System.Writes.Keys as Writes
use open_aura.ApiKey
use open_aura.Server.InApp.{KeepsIn, KeepsIn-require_app_id, handler_rules}

module _ (A : Uuid → Type 0) (P : Db → Type 0) (k : StatementsKeep A P) where
  pub create-KeepsIn :
      (r : Request) (body : Option ApiKey.CreateInput)
      → KeepsIn A P r.ctx (ApiKey.Handler.create r body)
  unfolding ApiKey.Handler.create
  create-KeepsIn r body =
      KeepsIn-require_app_id A P r _
        (λ app own. search (handler_rules, Writes.create-Keeps A P k) depth 16)

  pub get-KeepsIn : (r : Request) → KeepsIn A P r.ctx (ApiKey.Handler.get r)
  unfolding ApiKey.Handler.get ApiKey.Repository.get_by_id
  get-KeepsIn r = KeepsIn-require_app_id A P r _ (λ app own. search (handler_rules) depth 16)

  pub list-KeepsIn : (r : Request) → KeepsIn A P r.ctx (ApiKey.Handler.list r)
  unfolding ApiKey.Handler.list ApiKey.Repository.list
  list-KeepsIn r = KeepsIn-require_app_id A P r _ (λ app own. search (handler_rules) depth 16)

  pub delete-KeepsIn : (r : Request) → KeepsIn A P r.ctx (ApiKey.Handler.delete r)
  unfolding ApiKey.Handler.delete
  delete-KeepsIn r =
      KeepsIn-require_app_id A P r _
        (λ app own. search (handler_rules, Writes.revoke-Keeps A P k) depth 16)

  -- The app is the one of the path.
  pub admin_create-Keeps :
      ((app : Uuid) → A app)
      → (r : Request) (body : Option ApiKey.CreateInput)
      → Keeps P (ApiKey.Handler.admin_create r body)
  unfolding ApiKey.Handler.admin_create
  admin_create-Keeps own r body = search (handler_rules, own, Writes.create-Keeps A P k) depth 16
