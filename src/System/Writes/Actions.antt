-- ===== src/System/Writes/Actions.antt =====
-- The writes to actions keep what the statements keep.
use open_aura.Prelude.{Option, none, some, String}
use open_aura.Json.{RawMessage}
use open_aura.Schema.{Uuid, Db}
use open_aura.Effect.Keeps.{Keeps, keeps_rules}
use open_aura.Httpx.Replies.{Keeps-require_metadata}
use open_aura.System.Statements.{StatementsKeep}
use open_aura.Action
use open_aura.Json.{Fields}

module _ (A : Uuid → Type 0) (P : Db → Type 0) (k : StatementsKeep A P) where
  Keeps-normalize_name : (name : String) → Keeps P (Action.Repository.normalize_name name)
  unfolding Action.Repository.normalize_name
  Keeps-normalize_name name = search keeps_rules

  pub create-Keeps :
      (app : Uuid) → A app → (i : Action.CreateInput) → Keeps P (Action.Repository.create app i)
  unfolding Action.Repository.create
  create-Keeps app own i =
      search (keeps_rules, Keeps-require_metadata, Keeps-normalize_name, k.action_inserted) depth 16

  pub delete-Keeps :
      (app : Uuid) → A app → (id : Uuid) → Keeps P (Action.Repository.soft_delete app id)
  unfolding Action.Repository.soft_delete
  delete-Keeps app own id = search (keeps_rules, k.action_deleted) depth 16

  Keeps-updated_name :
      (current : String) (given : Option String)
      → Keeps P (Action.Repository.updated_name current given)
  Keeps-updated_name current none = search keeps_rules
  Keeps-updated_name current (some raw) = search (keeps_rules, Keeps-normalize_name) depth 8

  Keeps-updated_metadata :
      (current : Fields) (given : Option RawMessage)
      → Keeps P (Action.Repository.updated_metadata current given)
  Keeps-updated_metadata current none = search keeps_rules
  Keeps-updated_metadata current (some raw) = Keeps-require_metadata raw

  Keeps-get_by_id : (app : Uuid) (id : Uuid) → Keeps P (Action.Repository.get_by_id app id)
  unfolding Action.Repository.get_by_id
  Keeps-get_by_id app id = search keeps_rules

  pub update-Keeps :
      (app : Uuid)
      → A app
      → (id : Uuid) (i : Action.UpdateInput) → Keeps P (Action.Repository.update app id i)
  unfolding Action.Repository.update
  update-Keeps app own id i =
      search
        (
          keeps_rules,
          Keeps-get_by_id,
          Keeps-updated_name,
          Keeps-updated_metadata,
          k.action_updated app id own,
        )
        depth 18
