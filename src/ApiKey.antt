-- ===== src/ApiKey.antt =====
-- internal/apikey/model.go
pub mod Repository
pub mod Resolve
pub mod Gate
pub mod Handler
use open_aura.Prelude.{Option, none, String, ℤ}
use open_aura.Json.{RawMessage, Fields}
use open_aura.Schema.{Uuid, Time, ApiKeyRow}

pub record ApiKey : Type 0 where
  pub id : Uuid
  pub app_id : Uuid
  pub name : Option String
  pub metadata : Fields
  pub created_at : Time
  pub revoked_at : Option Time
  -- the plain key, only on create
  pub key : String

pub record CreateInput : Type 0 where
  pub name : Option String
  pub metadata : RawMessage

pub record ListFilter : Type 0 where
  pub app_id : Uuid
  pub limit : ℤ
  pub offset : ℤ

-- the columns that the queries return, with the key that the program fills in
unfoldable pub of_row : String → ApiKeyRow → ApiKey
of_row key r = record {
  id = r.id;
  app_id = r.app_id;
  name = r.name;
  metadata = r.metadata;
  created_at = r.created_at;
  revoked_at = r.revoked_at;
  key = key;
}
