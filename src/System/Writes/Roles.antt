-- ===== src/System/Writes/Roles.antt =====
-- The writes to roles keep what the statements keep.
use open_aura.Prelude.{Option, none, some}
use open_aura.Json.{RawMessage}
use open_aura.Schema.{Uuid, Db}
use open_aura.Effect.Keeps.{Keeps, keeps_rules}
use open_aura.Httpx.Replies.{Keeps-require_metadata}
use open_aura.System.Statements.{StatementsKeep}
use open_aura.Role

module _ (A : Uuid → Type 0) (P : Db → Type 0) (k : StatementsKeep A P) where
  pub create-Keeps :
      (app : Uuid) → A app → (i : Role.CreateInput) → Keeps P (Role.Repository.create app i)
  unfolding Role.Repository.create
  create-Keeps app own i = search (keeps_rules, Keeps-require_metadata, k.role_inserted) depth 16

  pub delete-Keeps :
      (app : Uuid) → A app → (id : Uuid) → Keeps P (Role.Repository.soft_delete app id)
  unfolding Role.Repository.soft_delete
  delete-Keeps app own id = search (keeps_rules, k.role_deleted) depth 16

  updated-Keeps :
      (app : Uuid)
      → A app
      → (id : Uuid) (given : Option RawMessage)
      → Keeps P (Role.Repository.update app id (record { metadata = given }))
  unfolding Role.Repository.update
  updated-Keeps app own id none = search keeps_rules
  updated-Keeps app own id (some raw) =
      search (keeps_rules, Keeps-require_metadata, k.role_updated app id own) depth 16

  pub update-Keeps :
      (app : Uuid)
      → A app
      → (id : Uuid) (i : Role.UpdateInput) → Keeps P (Role.Repository.update app id i)
  update-Keeps app own id i = updated-Keeps app own id i.metadata
