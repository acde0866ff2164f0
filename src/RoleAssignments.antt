-- ===== src/RoleAssignments.antt =====
-- internal/roleassignments/model.go; Schema.RoleAssignment is the struct RoleAssignment.
pub mod Repository
pub mod Handler
use open_aura.Prelude.{Option, ℤ}
use open_aura.Schema.{Uuid}

pub record CreateInput : Type 0 where
  pub user_id : Uuid
  pub role_id : Uuid
  pub tenant_id : Uuid

pub record UpdateInput : Type 0 where
  pub user_id : Option Uuid
  pub role_id : Option Uuid
  pub tenant_id : Option Uuid

pub record ListFilter : Type 0 where
  pub app_id : Uuid
  pub user_id : Option Uuid
  pub role_id : Option Uuid
  pub tenant_id : Option Uuid
  pub limit : ℤ
  pub offset : ℤ
