-- ===== src/RoleAssignments/Repository.antt =====
-- internal/roleassignments/repository.go
use open_aura.Prelude.{
  Bool, true, ◌&&◌, ◌||◌, Option, none, some, String, List, pos_part, ◌==◌, if◌then◌else◌,
}
use open_aura.Schema.{Uuid, Db, nil_uuid, is_null, RoleAssignment}
use open_aura.Schema.Writes.{insert_role_assignment, update_role_assignment, delete_role_assignment}
use open_aura.Sql.{select_one, select_page}
use open_aura.Store.{
  Err, not_found, fk_violation, invalid_input, map_read_error, map_write_error, map_update_error,
  wrap_error,
}
use open_aura.Effect
use open_aura.Effect.{
  Env, M, Result, ok, err, pure, raise, lift, asks, map_err, ◌>>=◌, ◌>>◌, new_uuid, query, exec,
  row,
}
use open_aura.Httpx.{clamp_pagination}
use open_aura.Prelude.{any}
use open_aura.RoleAssignments.{CreateInput, UpdateInput, ListFilter}

abbrev ids_required : String
ids_required = "user_id, role_id, and tenant_id are required"

-- INNER JOIN tenants t ON t.id = ra.tenant_id ... WHERE t.app_id = app
abbrev pub in_app : Db → Uuid → RoleAssignment → Bool
in_app db app a = any (λ t. t.id == a.tenant_id && t.app_id == app) db.tenants

-- ra.id = id AND t.app_id = app AND ra.deleted_at IS NULL
abbrev pub found_by : Uuid → Uuid → Db → RoleAssignment → Bool
found_by app id db a = a.id == id && in_app db app a && is_null a.deleted_at

-- requireEntitiesInApp
unfoldable pub require_entities_in_app : Uuid → Uuid → Uuid → Uuid → M Err (Unit {0})
require_entities_in_app app user role tenant = do
  present ← map_err wrap_error (
      query (λ db. ok (
        any (λ u. u.id == user && u.app_id == app && is_null u.deleted_at) db.users
        && any (λ r. r.id == role && r.app_id == app && is_null r.deleted_at) db.roles
        && any (λ t. t.id == tenant && t.app_id == app && is_null t.deleted_at) db.tenants)))
  if present then pure tt else raise fk_violation

-- Create
unfoldable pub create : Uuid → CreateInput → M Err RoleAssignment
unfolding require_entities_in_app
create app input =
    if input.user_id == nil_uuid || input.role_id == nil_uuid || input.tenant_id == nil_uuid
    then raise (invalid_input ids_required)
    else do
      require_entities_in_app app input.user_id input.role_id input.tenant_id
      t ← Effect.now
      id ← new_uuid
      map_err map_write_error (
          exec (
            insert_role_assignment (record {
              id = id;
              user_id = input.user_id;
              role_id = input.role_id;
              tenant_id = input.tenant_id;
              created_at = t;
              updated_at = t;
              deleted_at = none;
            })))

-- GetByID
unfoldable pub get_by_id : Uuid → Uuid → M Err RoleAssignment
get_by_id app id =
    map_err map_read_error (query (λ db. row (select_one (found_by app id db) db.role_assignments)))

-- $n::uuid IS NULL OR column = $n
abbrev pub wanted : Option Uuid → Uuid → Bool
wanted none id = true
wanted (some want) id = id == want

-- List
unfoldable pub list : ListFilter → M Err (List RoleAssignment)
unfolding clamp_pagination
list f =
    let (limit, offset) = clamp_pagination f.limit f.offset in
    map_err wrap_error (
      query (λ db. ok (
        select_page
          (λ a.
            is_null a.deleted_at
            && in_app db f.app_id a
            && wanted f.user_id a.user_id
            && wanted f.role_id a.role_id
            && wanted f.tenant_id a.tenant_id)
          (λ a. a.created_at) (pos_part limit) (pos_part offset) db.role_assignments)))

abbrev pub or_current : Option Uuid → Uuid → Uuid
or_current none current = current
or_current (some id) current = id

-- Update
unfoldable pub update : Uuid → Uuid → UpdateInput → M Err RoleAssignment
unfolding get_by_id require_entities_in_app
update app id input = do
  current ← get_by_id app id
  let user = or_current input.user_id current.user_id
  let role = or_current input.role_id current.role_id
  let tenant = or_current input.tenant_id current.tenant_id
  if user == nil_uuid || role == nil_uuid || tenant == nil_uuid
      then raise (invalid_input ids_required)
      else do
        require_entities_in_app app user role tenant
        t ← Effect.now
        map_err map_update_error (
            exec (λ db.
              update_role_assignment (found_by app id db)
                (λ a. record a {
                  user_id = user;
                  role_id = role;
                  tenant_id = tenant;
                  updated_at = t;
                })
                db))

-- SoftDelete
unfoldable pub soft_delete : Uuid → Uuid → M Err (Unit {0})
soft_delete app id = do
  t ← Effect.now
  n ← map_err wrap_error (exec (λ db. delete_role_assignment (found_by app id db) t db))
  if n == 0 then raise not_found else pure tt
