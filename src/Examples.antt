-- ===== src/Examples.antt =====
-- A small database, a request and an environment to run the API on.
pub mod Tokens
pub mod Service
use open_aura.Prelude.{none, some, ◌+◌, [], ◌∷◌, str_eq, false, if◌then◌else◌}
use open_aura.Json.{end}
use open_aura.Jwks.{no_keys}
use open_aura.Schema.{
  Db, App, Tenant, User, Role, RoleAssignment, Resource, Action, Permission, ApiKeyRow, empty_db,
}
use open_aura.Effect.{Env, World, up}
use open_aura.Httpx.{Request}
use open_aura.Access.{CheckInput}

-- No faults and no other requests; identifiers are numbered from 100 on.
abbrev pub quiet : Env
quiet = record {
  now = λ n. n;
  new_uuid = λ n. some (n + 100);
  random_hex = λ n. some "ab";
  fault = λ n. up;
  others = λ n db. db;
  other_keys = λ n c. c;
  parse_uuid = λ s. if str_eq s "1" then some 1 else none;
  uuid_string = λ u. "1";
  sha256_hex = λ s. s;
  unicode_lower = λ c. c;
  json_text = λ j. "{}";
  bcrypt_hash = λ n s. some s;
  bcrypt_matches = str_eq;
  uuid_v4 = λ n. "t";
}

abbrev pub sample_app : App
sample_app = record {
  id = 1;
  name = "shop";
  metadata = end;
  created_at = 0;
  updated_at = 0;
  deleted_at = none;
}

abbrev pub sample_tenant : Tenant
sample_tenant = record {
  id = 2;
  app_id = 1;
  metadata = end;
  created_at = 0;
  updated_at = 0;
  deleted_at = none;
}

abbrev pub sample_user : User
sample_user = record {
  id = 3;
  app_id = 1;
  email = "ada@x";
  metadata = end;
  created_at = 0;
  updated_at = 0;
  deleted_at = none;
}

abbrev pub sample_role : Role
sample_role = record {
  id = 4;
  app_id = 1;
  metadata = end;
  created_at = 0;
  updated_at = 0;
  deleted_at = none;
}

abbrev pub sample_resource : Resource
sample_resource = record {
  id = 5;
  app_id = 1;
  name = "doc";
  metadata = end;
  created_at = 0;
  updated_at = 0;
  deleted_at = none;
}

abbrev pub sample_action : Action
sample_action = record {
  id = 6;
  app_id = 1;
  name = "read";
  metadata = end;
  created_at = 0;
  updated_at = 0;
  deleted_at = none;
}

abbrev pub sample_assignment : RoleAssignment
sample_assignment = record {
  id = 7;
  user_id = 3;
  role_id = 4;
  tenant_id = 2;
  created_at = 0;
  updated_at = 0;
  deleted_at = none;
}

abbrev pub sample_permission : Permission
sample_permission = record {
  id = 8;
  role_id = 4;
  resource_id = 5;
  action_id = 6;
  created_at = 0;
  updated_at = 0;
  deleted_at = none;
}

abbrev pub sample_key : ApiKeyRow
sample_key = record {
  id = 9;
  app_id = 1;
  key_hash = "oa_app_1";
  name = none;
  metadata = end;
  created_at = 0;
  revoked_at = none;
}

abbrev pub sample_db : Db
sample_db = record {
  apps = sample_app ∷ [];
  tenants = sample_tenant ∷ [];
  users = sample_user ∷ [];
  roles = sample_role ∷ [];
  role_assignments = sample_assignment ∷ [];
  api_keys = sample_key ∷ [];
  admin_api_keys = [];
  resources = sample_resource ∷ [];
  actions = sample_action ∷ [];
  permissions = sample_permission ∷ [];
  user_identities = [];
}

abbrev pub sample_world : World
sample_world = record { db = sample_db; apple_keys = no_keys; tick = 0 }

abbrev pub empty_world : World
empty_world = record { db = empty_db; apple_keys = no_keys; tick = 0 }

-- A request of the app, with its key.
abbrev pub sample_request : Request
sample_request = record {
  ctx = record { app_id = some "1"; admin = false };
  header = λ name. if str_eq name "X-API-Key" then "oa_app_1" else "";
  path_value = λ name. "1";
  query = λ name. "";
}

abbrev pub sample_check : CheckInput
sample_check = record { user_id = 3; tenant_id = 2; resource = " doc "; action = "read" }
