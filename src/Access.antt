-- ===== src/Access.antt =====
-- internal/access/model.go; a CheckResponse is the Boolean that it holds.
pub mod Repository
pub mod Handler
pub mod Decision
pub mod Revocation
use open_aura.Prelude.{String}
use open_aura.Schema.{Uuid}

pub record CheckInput : Type 0 where
  pub user_id : Uuid
  pub tenant_id : Uuid
  pub resource : String
  pub action : String
