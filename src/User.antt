-- ===== src/User.antt =====
-- internal/user: the inputs of model.go; Schema.User is the struct User.
pub mod Directory
pub mod Promise
pub mod Rows
pub mod Inputs
pub mod Steps
pub mod Refinement
pub mod Repository
pub mod Handler
pub mod Lifecycle
pub mod Listing
pub mod Creation
use open_aura.Prelude.{Option, String, ℤ}
use open_aura.Json.{RawMessage}
use open_aura.Schema.{Uuid}

pub record CreateInput : Type 0 where
  pub email : String
  pub metadata : RawMessage

pub record UpdateInput : Type 0 where
  pub email : Option String
  pub metadata : Option RawMessage

pub record ListFilter : Type 0 where
  pub app_id : Uuid
  pub limit : ℤ
  pub offset : ℤ
