-- ===== src/AdminApiKey.antt =====
-- internal/adminapikey/model.go
pub mod Repository
pub mod Gate
pub mod Bootstrap
pub mod Handler
use open_aura.Prelude.{Option, String, ℤ}
use open_aura.Schema.{Uuid, Time, AdminApiKeyRow}

pub record AdminApiKey : Type 0 where
  pub id : Uuid
  pub name : Option String
  pub created_at : Time
  pub revoked_at : Option Time
  -- the plain key, only on create
  pub key : String

pub record CreateInput : Type 0 where
  pub name : Option String

pub record ListFilter : Type 0 where
  pub limit : ℤ
  pub offset : ℤ

-- the columns that the queries return, with the key that the program fills in
unfoldable pub of_row : String → AdminApiKeyRow → AdminApiKey
of_row key r = record {
  id = r.id;
  name = r.name;
  created_at = r.created_at;
  revoked_at = r.revoked_at;
  key = key;
}
