-- ===== src/ApiKey/Repository.antt =====
-- internal/apikey/repository.go
use open_aura.Prelude.{◌&&◌, none, String, List, pos_part, ◌==◌, str_eq, if◌then◌else◌}
use open_aura.Schema.{Uuid, is_null}
use open_aura.Schema.Writes.{insert_api_key, revoke_api_key}
use open_aura.Sql.{select_one, select_page}
use open_aura.Store.{Err, not_found, map_read_error, map_write_error, wrap_error}
use open_aura.Effect
use open_aura.Effect.{
  Env, M, Result, ok, err, pure, raise, lift, asks, map_err, ◌>>=◌, ◌>>◌, new_uuid, query, exec,
  row,
}
use open_aura.Httpx.{clamp_pagination, require_metadata}
use mathlib.Core.Option
use open_aura.Prelude.{any, map}
use open_aura.Auth.{new_api_key, hash_api_key}
use open_aura.ApiKey.{ApiKey, CreateInput, ListFilter, of_row}

-- requireActiveApp
unfoldable pub require_active_app : Uuid → M Err (Unit {0})
require_active_app app = map_err map_read_error (
    query (λ db.
      row (Option.map (λ _. tt) (select_one (λ a. a.id == app && is_null a.deleted_at) db.apps))))

-- Create
unfoldable pub create : Uuid → CreateInput → M Err ApiKey
unfolding require_active_app of_row
create app input = do
  require_active_app app
  metadata ← require_metadata input.metadata
  raw ← new_api_key "oa_app"
  id ← new_uuid
  t ← Effect.now
  hash ← asks (λ env. hash_api_key env raw)
  k ← map_err map_write_error (
      exec (
        insert_api_key (record {
          id = id;
          app_id = app;
          key_hash = hash;
          name = input.name;
          metadata = metadata;
          created_at = t;
          revoked_at = none;
        })))
  pure (of_row raw k)

-- GetByID
unfoldable pub get_by_id : Uuid → Uuid → M Err ApiKey
unfolding of_row
get_by_id app id = map_err map_read_error (
    query (λ db. row (
      Option.map (of_row "")
        (select_one (λ r. r.id == id && r.app_id == app && is_null r.revoked_at) db.api_keys))))

-- List
unfoldable pub list : ListFilter → M Err (List ApiKey)
unfolding of_row clamp_pagination
list f =
    let (limit, offset) = clamp_pagination f.limit f.offset in
    map_err wrap_error (
      query (λ db. ok (
        map (of_row "") (
          select_page (λ r. r.app_id == f.app_id && is_null r.revoked_at) (λ r. r.created_at)
            (pos_part limit) (pos_part offset) db.api_keys))))

-- Revoke
unfoldable pub revoke : Uuid → Uuid → M Err (Unit {0})
revoke app id = do
  t ← Effect.now
  n ←
      map_err wrap_error
        (exec (revoke_api_key (λ r. r.id == id && r.app_id == app && is_null r.revoked_at) t))
  if n == 0 then raise not_found else pure tt

-- ResolveAppIDByKeyHash
unfoldable pub resolve_app_id_by_key_hash : String → M Err Uuid
resolve_app_id_by_key_hash key_hash = map_err map_read_error (
    query (λ db. row (
      Option.map (λ k. k.app_id)
        (select_one
          (λ k.
            str_eq k.key_hash key_hash
            && is_null k.revoked_at
            && any (λ a. a.id == k.app_id && is_null a.deleted_at) db.apps)
          db.api_keys))))
