-- ===== src/System/Writes/Assignments.antt =====
-- The writes to role assignments keep what the statements keep.

use open_aura.Schema.{Uuid, Db}
use open_aura.Effect.Keeps.{Keeps, keeps_rules}
use open_aura.System.Statements.{StatementsKeep}
use open_aura.RoleAssignments

module _ (A : Uuid → Type 0) (P : Db → Type 0) (k : StatementsKeep A P) where
  Keeps-require_entities :
      (app user role tenant : Uuid)
      → Keeps P (RoleAssignments.Repository.require_entities_in_app app user role tenant)
  unfolding RoleAssignments.Repository.require_entities_in_app
  Keeps-require_entities app user role tenant = search keeps_rules depth 8

  Keeps-get_by_id : (app id : Uuid) → Keeps P (RoleAssignments.Repository.get_by_id app id)
  unfolding RoleAssignments.Repository.get_by_id
  Keeps-get_by_id app id = search keeps_rules

  pub create-Keeps :
      (app : Uuid) (i : RoleAssignments.CreateInput)
      → Keeps P (RoleAssignments.Repository.create app i)
  unfolding RoleAssignments.Repository.create
  create-Keeps app i =
      search (keeps_rules, Keeps-require_entities, k.role_assignment_inserted) depth 16

  pub update-Keeps :
      (app id : Uuid) (i : RoleAssignments.UpdateInput)
      → Keeps P (RoleAssignments.Repository.update app id i)
  unfolding RoleAssignments.Repository.update
  update-Keeps app id i =
      search (keeps_rules, Keeps-get_by_id, Keeps-require_entities, k.role_assignment_updated) depth
        16

  pub delete-Keeps : (app id : Uuid) → Keeps P (RoleAssignments.Repository.soft_delete app id)
  unfolding RoleAssignments.Repository.soft_delete
  delete-Keeps app id = search (keeps_rules, k.role_assignment_deleted) depth 16
