-- ===== src/App.antt =====
-- internal/app: the inputs of model.go; Schema.App is the struct App.
pub mod Repository
pub mod Handler
use open_aura.Prelude.{Option, String, ℤ}
use open_aura.Json.{RawMessage}
use open_aura.Schema.{Uuid}

pub record CreateInput : Type 0 where
  pub name : String
  pub metadata : RawMessage

pub record UpdateInput : Type 0 where
  pub name : Option String
  pub metadata : Option RawMessage

pub record ListFilter : Type 0 where
  pub limit : ℤ
  pub offset : ℤ
