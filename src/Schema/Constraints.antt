-- ===== src/Schema/Constraints.antt =====
-- The constraints of migrations/*.sql, and the statements that write to each table under them.
-- A statement either writes or reports an error with the code of Postgres; triggers run before the
-- unique indexes, and foreign keys are tested last.
use open_aura.Prelude.{
  ℕ, Bool, true, false, not, ◌&&◌, ◌||◌, Option, none, some, String, List, [], ◌∷◌, any, filter,
  length, ◌==◌, str_eq, if◌then◌else◌,
}
use open_aura.Json.{Json, Fields, member, null, str}
use open_aura.Schema.{
  Uuid, Db, App, Tenant, User, Role, RoleAssignment, Resource, Action, Permission, ApiKeyRow,
  AdminApiKeyRow, IdentityRow, is_null,
}
use open_aura.Sql.{Table}
use open_aura.Store.{DbError, pg}
use open_aura.Effect.{Result}

-- The replies of Postgres to a broken constraint.
abbrev pub unique_violation : DbError
unique_violation = pg "23505" "duplicate key value violates unique constraint"

abbrev pub foreign_key_violation : DbError
foreign_key_violation = pg "23503" "violates foreign key constraint"

-- What a statement returns, and the database that it leaves.
abbrev pub Outcome : Type 0 → Type 0
Outcome A = Result DbError (A × Db)

-- Two values that must agree under a unique index; NULL agrees with nothing.
abbrev pub same_text : Option String → Option String → Bool
same_text none t = false
same_text (some s) none = false
same_text (some s) (some t) = str_eq s t

abbrev pub has_row : {R : Type 0} ⦃t : Table R⦄ → Uuid → List R → Bool
has_row ⦃t⦄ id rows = any (λ r. t.key r == id) rows

-- the number of rows that an UPDATE touches
abbrev pub affected : {R : Type 0} → (R → Bool) → List R → ℕ
affected p rows = length (filter p rows)

-- the primary key and the unique indexes of apps
instance abbrev pub app_table : Table App
app_table = record { key = λ r. r.id; clash = λ r s. false }

-- the primary key and the unique indexes of tenants
instance abbrev pub tenant_table : Table Tenant
tenant_table = record { key = λ r. r.id; clash = λ r s. false }

-- the primary key and the unique indexes of users
instance abbrev pub user_table : Table User
user_table = record {
  key = λ r. r.id;
  clash = λ r s.
      is_null r.deleted_at
      && is_null s.deleted_at
      && r.app_id == s.app_id
      && str_eq r.email s.email;
}

-- the primary key and the unique indexes of resources
instance abbrev pub resource_table : Table Resource
resource_table = record {
  key = λ r. r.id;
  clash = λ r s.
      is_null r.deleted_at && is_null s.deleted_at && r.app_id == s.app_id && str_eq r.name s.name;
}

-- the primary key and the unique indexes of actions
instance abbrev pub action_table : Table Action
action_table = record {
  key = λ r. r.id;
  clash = λ r s.
      is_null r.deleted_at && is_null s.deleted_at && r.app_id == s.app_id && str_eq r.name s.name;
}

-- the primary key and the unique indexes of roleassignments
instance abbrev pub role_assignment_table : Table RoleAssignment
role_assignment_table = record {
  key = λ r. r.id;
  clash = λ r s.
      is_null r.deleted_at
      && is_null s.deleted_at
      && r.user_id == s.user_id
      && r.role_id == s.role_id
      && r.tenant_id == s.tenant_id;
}

-- the primary key and the unique indexes of permissions
instance abbrev pub permission_table : Table Permission
permission_table = record {
  key = λ r. r.id;
  clash = λ r s.
      is_null r.deleted_at
      && is_null s.deleted_at
      && r.role_id == s.role_id
      && r.resource_id == s.resource_id
      && r.action_id == s.action_id;
}

-- the primary key and the unique indexes of api_keys
instance abbrev pub api_key_table : Table ApiKeyRow
api_key_table = record { key = λ r. r.id; clash = λ r s. str_eq r.key_hash s.key_hash }

-- the primary key and the unique indexes of admin_api_keys
instance abbrev pub admin_api_key_table : Table AdminApiKeyRow
admin_api_key_table = record { key = λ r. r.id; clash = λ r s. str_eq r.key_hash s.key_hash }

-- the primary key and the unique indexes of user_identities
instance abbrev pub identity_table : Table IdentityRow
identity_table = record {
  key = λ r. r.id;
  clash = λ r s.
      is_null r.deleted_at
      && is_null s.deleted_at
      && r.app_id == s.app_id
      && str_eq r.provider s.provider
      && str_eq r.provider_subject s.provider_subject;
}

-- metadata->>'name', by the text that Postgres gives a JSON value; JSON null is NULL.
unfoldable pub name_text : (Json → String) → Fields → Option String
name_text json_text fs = elim (member "name" fs) [
  | none ↦ none
  | some null ↦ none
  | some (str s) ↦ some s
  | some j ↦ some (json_text j)
]

-- the primary key and the unique index of roles, over the text of a JSON value
abbrev pub role_table : (Json → String) → Table Role
role_table json_text = record {
  key = λ r. r.id;
  clash = λ r s.
      is_null r.deleted_at
      && is_null s.deleted_at
      && r.app_id == s.app_id
      && same_text (name_text json_text r.metadata) (name_text json_text s.metadata);
}

-- IS DISTINCT FROM
abbrev pub distinct : Option ℕ → Option ℕ → Bool
distinct none none = false
distinct none (some _) = true
distinct (some _) none = true
distinct (some a) (some b) = not (a == b)

-- SELECT app_id INTO ... FROM <table> WHERE id = ...
abbrev pub app_of : {R : Type 0} → (R → Uuid) → (R → Uuid) → Uuid → List R → Option Uuid
app_of key app id [] = none
app_of key app id (r ∷ rows) = if key r == id then some (app r) else app_of key app id rows

abbrev pub user_app : Db → Uuid → Option Uuid
user_app db id = app_of (λ r. r.id) (λ r. r.app_id) id db.users

abbrev pub role_app : Db → Uuid → Option Uuid
role_app db id = app_of (λ r. r.id) (λ r. r.app_id) id db.roles

abbrev pub tenant_app : Db → Uuid → Option Uuid
tenant_app db id = app_of (λ r. r.id) (λ r. r.app_id) id db.tenants

abbrev pub resource_app : Db → Uuid → Option Uuid
resource_app db id = app_of (λ r. r.id) (λ r. r.app_id) id db.resources

abbrev pub action_app : Db → Uuid → Option Uuid
action_app db id = app_of (λ r. r.id) (λ r. r.app_id) id db.actions

-- check_roleassignment_app_consistency
unfoldable pub assignment_mismatch : Db → RoleAssignment → Bool
assignment_mismatch db a =
    distinct (user_app db a.user_id) (role_app db a.role_id)
    || distinct (user_app db a.user_id) (tenant_app db a.tenant_id)

-- check_permission_app_consistency
unfoldable pub permission_mismatch : Db → Permission → Bool
permission_mismatch db p =
    distinct (role_app db p.role_id) (resource_app db p.resource_id)
    || distinct (role_app db p.role_id) (action_app db p.action_id)

abbrev pub assignment_exception : DbError
assignment_exception = pg "P0001" "user, role, and tenant must belong to the same app"

abbrev pub permission_exception : DbError
permission_exception = pg "P0001" "role, resource, and action must belong to the same app"
