-- ===== src/Permission.antt =====
-- internal/permission/model.go; Schema.Permission is the struct Permission.
pub mod Repository
pub mod Handler
use open_aura.Prelude.{Option, ℤ}
use open_aura.Schema.{Uuid}

pub record CreateInput : Type 0 where
  pub resource_id : Uuid
  pub action_id : Uuid

pub record ListFilter : Type 0 where
  pub app_id : Uuid
  pub role_id : Uuid
  pub resource_id : Option Uuid
  pub action_id : Option Uuid
  pub limit : ℤ
  pub offset : ℤ
