-- ===== src/Role.antt =====
-- internal/role: the inputs of model.go; Schema.Role is the struct Role.
pub mod Repository
pub mod Handler
use open_aura.Prelude.{Option, String, ℤ}
use open_aura.Json.{RawMessage}
use open_aura.Schema.{Uuid}

pub record CreateInput : Type 0 where
  pub metadata : RawMessage

pub record UpdateInput : Type 0 where
  pub metadata : Option RawMessage

pub record ListFilter : Type 0 where
  pub app_id : Uuid
  pub limit : ℤ
  pub offset : ℤ
