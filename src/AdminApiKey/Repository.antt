-- ===== src/AdminApiKey/Repository.antt =====
-- internal/adminapikey/repository.go
use open_aura.Prelude.{
  Bool, true, false, ◌&&◌, Option, none, some, String, List, pos_part, ◌==◌, str_eq, if◌then◌else◌,
}
use open_aura.Schema.{Uuid, is_null}
use open_aura.Schema.Writes.{insert_admin_api_key, revoke_admin_api_key}
use open_aura.Sql.{select_one, select_page}
use open_aura.Store.{Err, not_found, map_read_error, map_write_error, wrap_error}
use open_aura.Effect
use open_aura.Effect.{
  Env, M, Result, ok, err, pure, raise, lift, asks, map_err, ◌>>=◌, ◌>>◌, new_uuid, query, exec,
  row,
}
use open_aura.Httpx.{clamp_pagination}
use mathlib.Core.Option
use open_aura.Prelude.{map}
use open_aura.Store.{DbError, pg, no_rows, broken, internal}
use open_aura.Auth.{new_api_key, hash_api_key}
use open_aura.AdminApiKey.{AdminApiKey, CreateInput, ListFilter, of_row}

-- insertWithHash
unfoldable pub insert_with_hash : String → String → Option String → M Err AdminApiKey
unfolding of_row
insert_with_hash raw hash name = do
  id ← new_uuid
  t ← Effect.now
  k ← map_err map_write_error (
      exec (
        insert_admin_api_key
          (record { id = id; key_hash = hash; name = name; created_at = t; revoked_at = none })))
  pure (of_row raw k)

-- insert
unfoldable pub insert : String → Option String → M Err AdminApiKey
unfolding insert_with_hash
insert raw name = do hash ← asks (λ env. hash_api_key env raw); insert_with_hash raw hash name

-- Create
unfoldable pub create : CreateInput → M Err AdminApiKey
unfolding insert
create input = do raw ← new_api_key "oa_admin"; insert raw input.name

-- whether a row came back, where no row is no error
abbrev pub came_back : Result DbError (Unit {0}) → Result Err Bool
came_back (ok _) = ok true
came_back (err no_rows) = ok false
came_back (err (pg _ _)) = err internal
came_back (err broken) = err internal

unfoldable pub row_exists : M DbError (Unit {0}) → M Err Bool
row_exists m env w = let (r, w') = m env w in (came_back r, w')

-- EnsureBootstrapKey
unfoldable pub ensure_bootstrap_key : String → String → M Err (Unit {0})
unfolding insert_with_hash row_exists
ensure_bootstrap_key raw name = do
  hash ← asks (λ env. hash_api_key env raw)
  found ← row_exists (
      query (λ db.
        row (Option.map (λ _. tt) (select_one (λ k. str_eq k.key_hash hash) db.admin_api_keys))))
  if found
      then pure tt
      else do insert_with_hash raw hash (if str_eq name "" then none else some name); pure tt

-- GetByID
unfoldable pub get_by_id : Uuid → M Err AdminApiKey
unfolding of_row
get_by_id id = map_err map_read_error (
    query (λ db. row (
      Option.map (of_row "")
        (select_one (λ r. r.id == id && is_null r.revoked_at) db.admin_api_keys))))

-- List
unfoldable pub list : ListFilter → M Err (List AdminApiKey)
unfolding of_row clamp_pagination
list f =
    let (limit, offset) = clamp_pagination f.limit f.offset in
    map_err wrap_error (
      query (λ db. ok (
        map (of_row "") (
          select_page (λ r. is_null r.revoked_at) (λ r. r.created_at) (pos_part limit)
            (pos_part offset) db.admin_api_keys))))

-- Revoke
unfoldable pub revoke : Uuid → M Err (Unit {0})
revoke id = do
  t ← Effect.now
  n ← map_err wrap_error (exec (revoke_admin_api_key (λ r. r.id == id && is_null r.revoked_at) t))
  if n == 0 then raise not_found else pure tt

-- AdminKeyExists
unfoldable pub admin_key_exists : String → M Err Bool
unfolding row_exists
admin_key_exists key_hash = row_exists (
    query (λ db. row (
      Option.map (λ _. tt)
        (select_one (λ k. str_eq k.key_hash key_hash && is_null k.revoked_at) db.admin_api_keys))))
