-- ===== src/Server/Handlers/AdminKeys.antt =====
-- What the handlers of internal/adminapikey keep.
use open_aura.Prelude.{Option}
use open_aura.Schema.{Db, Uuid}
use open_aura.Effect.Keeps.{Keeps}
use open_aura.Httpx.{Request}
use open_aura.System.Statements.{StatementsKeep}
use open_aura.System.Writes.Keys as Writes
use open_aura.AdminApiKey
use open_aura.Server.InApp.{handler_rules}

module _ (A : Uuid → Type 0) (P : Db → Type 0) (k : StatementsKeep A P) where
  pub create-Keeps :
      (body : Option AdminApiKey.CreateInput) → Keeps P (AdminApiKey.Handler.create body)
  unfolding AdminApiKey.Handler.create
  create-Keeps body = search (handler_rules, Writes.create_admin-Keeps A P k) depth 16

  pub get-Keeps : (r : Request) → Keeps P (AdminApiKey.Handler.get r)
  unfolding AdminApiKey.Handler.get AdminApiKey.Repository.get_by_id
  get-Keeps r = search (handler_rules) depth 16

  pub list-Keeps : (r : Request) → Keeps P (AdminApiKey.Handler.list r)
  unfolding AdminApiKey.Handler.list AdminApiKey.Repository.list
  list-Keeps r = search (handler_rules) depth 16

  pub delete-Keeps : (r : Request) → Keeps P (AdminApiKey.Handler.delete r)
  unfolding AdminApiKey.Handler.delete
  delete-Keeps r = search (handler_rules, Writes.revoke_admin-Keeps A P k) depth 16
