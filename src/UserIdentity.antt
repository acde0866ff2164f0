-- ===== src/UserIdentity.antt =====
-- internal/useridentity/model.go
pub mod Repository
use open_aura.Prelude.{Option, none, some, String}
use open_aura.Json.{RawMessage, Fields}
use open_aura.Schema.{Uuid, Time, User, IdentityRow}

abbrev pub provider_password : String
provider_password = "password"

abbrev pub provider_apple : String
provider_apple = "apple"

pub record Identity : Type 0 where
  pub id : Uuid
  pub app_id : Uuid
  pub user_id : Uuid
  pub provider : String
  pub provider_subject : String
  pub secret_hash : String
  pub metadata : Fields
  pub created_at : Time
  pub updated_at : Time
  pub deleted_at : Option Time

pub record CreateInput : Type 0 where
  pub user_id : Uuid
  pub provider : String
  pub provider_subject : String
  pub secret_hash : String
  pub metadata : RawMessage

pub record PasswordCredential : Type 0 where
  pub user : User
  pub secret_hash : String

-- `if hash != nil { ... = *hash }`
abbrev pub or_blank : Option String → String
or_blank none = ""
or_blank (some s) = s

unfoldable pub of_row : IdentityRow → Identity
of_row r = record {
  id = r.id;
  app_id = r.app_id;
  user_id = r.user_id;
  provider = r.provider;
  provider_subject = r.provider_subject;
  secret_hash = or_blank r.secret_hash;
  metadata = r.metadata;
  created_at = r.created_at;
  updated_at = r.updated_at;
  deleted_at = r.deleted_at;
}
