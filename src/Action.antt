-- ===== src/Action.antt =====
-- internal/action: the inputs of model.go; Schema.Action is the struct Action.
pub mod Repository
pub mod Handler
use open_aura.Prelude.{Option, String, ℤ}
use open_aura.Json.{RawMessage}
use open_aura.Schema.{Uuid}

pub record CreateInput : Type 0 where
  pub name : String
  pub metadata : RawMessage

pub record UpdateInput : Type 0 where
  pub name : Option String
  pub metadata : Option RawMessage

pub record ListFilter : Type 0 where
  pub app_id : Uuid
  pub limit : ℤ
  pub offset : ℤ
