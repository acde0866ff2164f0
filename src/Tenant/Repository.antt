-- ===== src/Tenant/Repository.antt =====
-- internal/tenant/repository.go
use open_aura.Prelude.{◌&&◌, none, some, List, pos_part, ◌==◌, if◌then◌else◌}
use open_aura.Schema.{Uuid, nil_uuid, is_null, Tenant}
use open_aura.Schema.Writes.{insert_tenant, update_tenant, delete_tenant}
use open_aura.Sql.{select_one, select_page}
use open_aura.Store.{
  Err, not_found, invalid_input, map_read_error, map_write_error, map_update_error, wrap_error,
}
use open_aura.Effect
use open_aura.Effect.{
  Env, M, Result, ok, err, pure, raise, lift, asks, map_err, ◌>>=◌, ◌>>◌, new_uuid, query, exec,
  row,
}
use open_aura.Httpx.{clamp_pagination, require_metadata}
use open_aura.Tenant.{CreateInput, UpdateInput, ListFilter}

-- Create
unfoldable pub create : Uuid → CreateInput → M Err Tenant
create app input = if app == nil_uuid then raise (invalid_input "app_id is required") else do
  metadata ← require_metadata input.metadata
  t ← Effect.now
  id ← new_uuid
  map_err map_write_error (
      exec (
        insert_tenant (record {
          id = id;
          app_id = app;
          metadata = metadata;
          created_at = t;
          updated_at = t;
          deleted_at = none;
        })))

-- GetByID
unfoldable pub get_by_id : Uuid → Uuid → M Err Tenant
get_by_id app id = map_err map_read_error (
    query (λ db.
      row (select_one (λ r. r.id == id && r.app_id == app && is_null r.deleted_at) db.tenants)))

-- List
unfoldable pub list : ListFilter → M Err (List Tenant)
unfolding clamp_pagination
list f =
    let (limit, offset) = clamp_pagination f.limit f.offset in
    map_err wrap_error (
      query (λ db. ok (
        select_page (λ r. r.app_id == f.app_id && is_null r.deleted_at) (λ r. r.created_at)
          (pos_part limit) (pos_part offset) db.tenants)))

-- Update
unfoldable pub update : Uuid → Uuid → UpdateInput → M Err Tenant
update app id input = elim input.metadata [
  | none ↦ raise (invalid_input "metadata is required")
  | some raw ↦ do
    metadata ← require_metadata raw
    t ← Effect.now
    map_err map_update_error (
        exec (
          update_tenant (λ r. r.id == id && r.app_id == app && is_null r.deleted_at)
            (λ r. record r { metadata = metadata; updated_at = t })))
]

-- SoftDelete
unfoldable pub soft_delete : Uuid → Uuid → M Err (Unit {0})
soft_delete app id = do
  t ← Effect.now
  n ←
      map_err wrap_error
        (exec (delete_tenant (λ r. r.id == id && r.app_id == app && is_null r.deleted_at) t))
  if n == 0 then raise not_found else pure tt
