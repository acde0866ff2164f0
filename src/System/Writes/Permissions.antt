-- ===== src/System/Writes/Permissions.antt =====
-- The writes to permissions keep what the statements keep.

use open_aura.Schema.{Uuid, Db}
use open_aura.Effect.Keeps.{Keeps, keeps_rules}
use open_aura.System.Statements.{StatementsKeep}
use open_aura.Permission

module _ (A : Uuid → Type 0) (P : Db → Type 0) (k : StatementsKeep A P) where
  Keeps-require_entities :
      (app role resource action : Uuid)
      → Keeps P (Permission.Repository.require_entities_in_app app role resource action)
  unfolding Permission.Repository.require_entities_in_app
  Keeps-require_entities app role resource action = search keeps_rules depth 8

  pub create-Keeps :
      (app role : Uuid) (i : Permission.CreateInput)
      → Keeps P (Permission.Repository.create app role i)
  unfolding Permission.Repository.create
  create-Keeps app role i =
      search (keeps_rules, Keeps-require_entities, k.permission_inserted) depth 16

  pub delete-Keeps : (app role id : Uuid) → Keeps P (Permission.Repository.soft_delete app role id)
  unfolding Permission.Repository.soft_delete
  delete-Keeps app role id = search (keeps_rules, k.permission_deleted) depth 16
