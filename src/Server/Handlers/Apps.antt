-- ===== src/Server/Handlers/Apps.antt =====
-- What the handlers of internal/app keep.
use open_aura.Prelude.{Option}
use open_aura.Schema.{Db, Uuid}
use open_aura.Effect.Keeps.{Keeps}
use open_aura.Httpx.{Request}
use open_aura.System.Statements.{StatementsKeep}
use open_aura.System.Writes.Apps as Writes
use open_aura.App
use open_aura.Server.InApp.{handler_rules}

module _ (A : Uuid → Type 0) (P : Db → Type 0) (k : StatementsKeep A P) where
  pub create-Keeps :
      (r : Request) (body : Option App.CreateInput) → Keeps P (App.Handler.create r body)
  unfolding App.Handler.create
  create-Keeps r body = search (handler_rules, Writes.create-Keeps A P k) depth 16

  pub get-Keeps : (r : Request) → Keeps P (App.Handler.get r)
  unfolding App.Handler.get App.Repository.get_by_id
  get-Keeps r = search (handler_rules) depth 16

  pub list-Keeps : (r : Request) → Keeps P (App.Handler.list r)
  unfolding App.Handler.list App.Repository.list
  list-Keeps r = search (handler_rules) depth 16

  pub update-Keeps :
      (r : Request) (body : Option App.UpdateInput) → Keeps P (App.Handler.update r body)
  unfolding App.Handler.update
  update-Keeps r body = search (handler_rules, Writes.update-Keeps A P k) depth 16

  pub delete-Keeps : (r : Request) → Keeps P (App.Handler.delete r)
  unfolding App.Handler.delete
  delete-Keeps r = search (handler_rules, Writes.delete-Keeps A P k) depth 16
