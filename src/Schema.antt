-- ===== src/Schema.antt =====
-- The tables of migrations/*.sql, with the structs of internal/*/model.go that the rows fill.
-- A column that may be NULL is an `Option`. Identifiers are the 128-bit numbers of uuid.UUID, with
-- `nil` for uuid.Nil, and a time is a number that grows with the clock.
pub mod Constraints
pub mod Writes
pub mod Laws
use open_aura.Prelude.{ℕ, Option, none, some, Bool, true, false, String, List, []}
use open_aura.Json.{Fields}

abbrev pub Uuid : Type 0
Uuid = ℕ

abbrev pub Time : Type 0
Time = ℕ

-- uuid.Nil
abbrev pub nil_uuid : Uuid
nil_uuid = 0

pub record App : Type 0 where
  pub id : Uuid
  pub name : String
  pub metadata : Fields
  pub created_at : Time
  pub updated_at : Time
  pub deleted_at : Option Time

pub record Tenant : Type 0 where
  pub id : Uuid
  pub app_id : Uuid
  pub metadata : Fields
  pub created_at : Time
  pub updated_at : Time
  pub deleted_at : Option Time

pub record User : Type 0 where
  pub id : Uuid
  pub app_id : Uuid
  pub email : String
  pub metadata : Fields
  pub created_at : Time
  pub updated_at : Time
  pub deleted_at : Option Time

pub record Role : Type 0 where
  pub id : Uuid
  pub app_id : Uuid
  pub metadata : Fields
  pub created_at : Time
  pub updated_at : Time
  pub deleted_at : Option Time

pub record RoleAssignment : Type 0 where
  pub id : Uuid
  pub user_id : Uuid
  pub role_id : Uuid
  pub tenant_id : Uuid
  pub created_at : Time
  pub updated_at : Time
  pub deleted_at : Option Time

pub record Resource : Type 0 where
  pub id : Uuid
  pub app_id : Uuid
  pub name : String
  pub metadata : Fields
  pub created_at : Time
  pub updated_at : Time
  pub deleted_at : Option Time

pub record Action : Type 0 where
  pub id : Uuid
  pub app_id : Uuid
  pub name : String
  pub metadata : Fields
  pub created_at : Time
  pub updated_at : Time
  pub deleted_at : Option Time

pub record Permission : Type 0 where
  pub id : Uuid
  pub role_id : Uuid
  pub resource_id : Uuid
  pub action_id : Uuid
  pub created_at : Time
  pub updated_at : Time
  pub deleted_at : Option Time

-- A row of api_keys.
pub record ApiKeyRow : Type 0 where
  pub id : Uuid
  pub app_id : Uuid
  pub key_hash : String
  pub name : Option String
  pub metadata : Fields
  pub created_at : Time
  pub revoked_at : Option Time

-- A row of admin_api_keys.
pub record AdminApiKeyRow : Type 0 where
  pub id : Uuid
  pub key_hash : String
  pub name : Option String
  pub created_at : Time
  pub revoked_at : Option Time

-- A row of user_identities.
pub record IdentityRow : Type 0 where
  pub id : Uuid
  pub app_id : Uuid
  pub user_id : Uuid
  pub provider : String
  pub provider_subject : String
  pub secret_hash : Option String
  pub metadata : Fields
  pub created_at : Time
  pub updated_at : Time
  pub deleted_at : Option Time

pub record Db : Type 0 where
  pub apps : List App
  pub tenants : List Tenant
  pub users : List User
  pub roles : List Role
  pub role_assignments : List RoleAssignment
  pub api_keys : List ApiKeyRow
  pub admin_api_keys : List AdminApiKeyRow
  pub resources : List Resource
  pub actions : List Action
  pub permissions : List Permission
  pub user_identities : List IdentityRow

-- deleted_at IS NULL, revoked_at IS NULL
abbrev pub is_null : Option Time → Bool
is_null none = true
is_null (some _) = false

abbrev pub empty_db : Db
empty_db = record {
  apps = [];
  tenants = [];
  users = [];
  roles = [];
  role_assignments = [];
  api_keys = [];
  admin_api_keys = [];
  resources = [];
  actions = [];
  permissions = [];
  user_identities = [];
}
