-- ===== src/System/Writes/Apps.antt =====
-- The writes to apps keep what the statements keep.
use open_aura.Prelude.{Option, none, some, String}
use open_aura.Json.{RawMessage}
use open_aura.Schema.{Uuid, Db}
use open_aura.Effect.Keeps.{Keeps, keeps_rules}
use open_aura.Httpx.Replies.{Keeps-require_metadata}
use open_aura.System.Statements.{StatementsKeep}
use open_aura.App
use open_aura.Json.{Fields}

module _ (A : Uuid → Type 0) (P : Db → Type 0) (k : StatementsKeep A P) where
  pub create-Keeps : (i : App.CreateInput) → Keeps P (App.Repository.create i)
  unfolding App.Repository.create
  create-Keeps i = search (keeps_rules, Keeps-require_metadata, k.app_inserted) depth 16

  pub delete-Keeps : (id : Uuid) → Keeps P (App.Repository.soft_delete id)
  unfolding App.Repository.soft_delete
  delete-Keeps id = search (keeps_rules, k.app_deleted) depth 16

  Keeps-updated_name :
      (current : String) (given : Option String)
      → Keeps P (App.Repository.updated_name current given)
  Keeps-updated_name current none = search keeps_rules
  Keeps-updated_name current (some raw) = search keeps_rules

  Keeps-updated_metadata :
      (current : Fields) (given : Option RawMessage)
      → Keeps P (App.Repository.updated_metadata current given)
  Keeps-updated_metadata current none = search keeps_rules
  Keeps-updated_metadata current (some raw) = Keeps-require_metadata raw

  Keeps-get_by_id : (id : Uuid) → Keeps P (App.Repository.get_by_id id)
  unfolding App.Repository.get_by_id
  Keeps-get_by_id id = search keeps_rules

  pub update-Keeps : (id : Uuid) (i : App.UpdateInput) → Keeps P (App.Repository.update id i)
  unfolding App.Repository.update
  update-Keeps id i =
      search
        (keeps_rules, Keeps-get_by_id, Keeps-updated_name, Keeps-updated_metadata, k.app_updated)
        depth 18
