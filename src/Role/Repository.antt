-- ===== src/Role/Repository.antt =====
-- internal/role/repository.go
use open_aura.Prelude.{◌&&◌, none, some, List, pos_part, ◌==◌, if◌then◌else◌}
use open_aura.Schema.{Uuid, nil_uuid, is_null, Role}
use open_aura.Schema.Writes.{insert_role, update_role, delete_role}
use open_aura.Sql.{select_one, select_page}
use open_aura.Store.{
  Err, not_found, invalid_input, map_read_error, map_write_error, map_update_error, wrap_error,
}
use open_aura.Effect
use open_aura.Effect.{
  Env, M, Result, ok, err, pure, raise, lift, asks, map_err, ◌>>=◌, ◌>>◌, new_uuid, query, exec,
  row,
}
use open_aura.Httpx.{clamp_pagination, require_metadata}
use open_aura.Role.{CreateInput, UpdateInput, ListFilter}

-- Create
unfoldable pub create : Uuid → CreateInput → M Err Role
create app input = if app == nil_uuid then raise (invalid_input "app_id is required") else do
  metadata ← require_metadata input.metadata
  t ← Effect.now
  id ← new_uuid
  json_text ← asks (λ env. env.json_text)
  map_err map_write_error (
      exec (
        insert_role json_text (record {
          id = id;
          app_id = app;
          metadata = metadata;
          created_at = t;
          updated_at = t;
          deleted_at = none;
        })))

-- GetByID
unfoldable pub get_by_id : Uuid → Uuid → M Err Role
get_by_id app id = map_err map_read_error (
    query (λ db.
      row (select_one (λ r. r.id == id && r.app_id == app && is_null r.deleted_at) db.roles)))

-- List
unfoldable pub list : ListFilter → M Err (List Role)
unfolding clamp_pagination
list f =
    let (limit, offset) = clamp_pagination f.limit f.offset in
    map_err wrap_error (
      query (λ db. ok (
        select_page (λ r. r.app_id == f.app_id && is_null r.deleted_at) (λ r. r.created_at)
          (pos_part limit) (pos_part offset) db.roles)))

-- Update
unfoldable pub update : Uuid → Uuid → UpdateInput → M Err Role
update app id input = elim input.metadata [
  | none ↦ raise (invalid_input "metadata is required")
  | some raw ↦ do
    metadata ← require_metadata raw
    t ← Effect.now
    json_text ← asks (λ env. env.json_text)
    map_err map_update_error (
        exec (
          update_role json_text (λ r. r.id == id && r.app_id == app && is_null r.deleted_at)
            (λ r. record r { metadata = metadata; updated_at = t })))
]

-- SoftDelete
unfoldable pub soft_delete : Uuid → Uuid → M Err (Unit {0})
soft_delete app id = do
  t ← Effect.now
  n ←
      map_err wrap_error
        (exec (delete_role (λ r. r.id == id && r.app_id == app && is_null r.deleted_at) t))
  if n == 0 then raise not_found else pure tt
