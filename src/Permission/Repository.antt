-- ===== src/Permission/Repository.antt =====
-- internal/permission/repository.go
use open_aura.Prelude.{
  Bool, true, ◌&&◌, ◌||◌, Option, none, some, List, pos_part, ◌==◌, if◌then◌else◌,
}
use open_aura.Schema.{Uuid, Db, nil_uuid, is_null, Permission}
use open_aura.Schema.Writes.{insert_permission, delete_permission}
use open_aura.Sql.{select_one, select_page}
use open_aura.Store.{
  Err, not_found, fk_violation, invalid_input, map_read_error, map_write_error, wrap_error,
}
use open_aura.Effect
use open_aura.Effect.{
  Env, M, Result, ok, err, pure, raise, lift, asks, map_err, ◌>>=◌, ◌>>◌, new_uuid, query, exec,
  row,
}
use open_aura.Httpx.{clamp_pagination}
use open_aura.Prelude.{any}
use open_aura.Permission.{CreateInput, ListFilter}

-- INNER JOIN roles r ON r.id = p.role_id ... WHERE r.app_id = app AND r.deleted_at IS NULL
abbrev pub in_app : Db → Uuid → Permission → Bool
in_app db app p = any (λ r. r.id == p.role_id && r.app_id == app && is_null r.deleted_at) db.roles

-- p.id = id AND p.role_id = role AND r.app_id = app, both active
abbrev pub found_by : Uuid → Uuid → Uuid → Db → Permission → Bool
found_by app role id db p =
    p.id == id && p.role_id == role && in_app db app p && is_null p.deleted_at

-- requireEntitiesInApp
unfoldable pub require_entities_in_app : Uuid → Uuid → Uuid → Uuid → M Err (Unit {0})
require_entities_in_app app role resource action = do
  present ← map_err wrap_error (
      query (λ db. ok (
        any (λ r. r.id == role && r.app_id == app && is_null r.deleted_at) db.roles
        && any (λ s. s.id == resource && s.app_id == app && is_null s.deleted_at) db.resources
        && any (λ a. a.id == action && a.app_id == app && is_null a.deleted_at) db.actions)))
  if present then pure tt else raise fk_violation

-- Create
unfoldable pub create : Uuid → Uuid → CreateInput → M Err Permission
unfolding require_entities_in_app
create app role input =
    if role == nil_uuid || input.resource_id == nil_uuid || input.action_id == nil_uuid
    then raise (invalid_input "role_id, resource_id, and action_id are required")
    else do
      require_entities_in_app app role input.resource_id input.action_id
      t ← Effect.now
      id ← new_uuid
      map_err map_write_error (
          exec (
            insert_permission (record {
              id = id;
              role_id = role;
              resource_id = input.resource_id;
              action_id = input.action_id;
              created_at = t;
              updated_at = t;
              deleted_at = none;
            })))

-- GetByID
unfoldable pub get_by_id : Uuid → Uuid → Uuid → M Err Permission
get_by_id app role id =
    map_err map_read_error (query (λ db. row (select_one (found_by app role id db) db.permissions)))

-- $n::uuid IS NULL OR column = $n
abbrev pub wanted : Option Uuid → Uuid → Bool
wanted none id = true
wanted (some want) id = id == want

-- List
unfoldable pub list : ListFilter → M Err (List Permission)
unfolding clamp_pagination
list f =
    if f.role_id == nil_uuid
    then raise (invalid_input "role_id is required")
    else let (limit, offset) = clamp_pagination f.limit f.offset in
      map_err wrap_error (
        query (λ db. ok (
          select_page
            (λ p.
              is_null p.deleted_at
              && in_app db f.app_id p
              && p.role_id == f.role_id
              && wanted f.resource_id p.resource_id
              && wanted f.action_id p.action_id)
            (λ p. p.created_at) (pos_part limit) (pos_part offset) db.permissions)))

-- SoftDelete
unfoldable pub soft_delete : Uuid → Uuid → Uuid → M Err (Unit {0})
soft_delete app role id = do
  t ← Effect.now
  n ← map_err wrap_error (exec (λ db. delete_permission (found_by app role id db) t db))
  if n == 0 then raise not_found else pure tt
