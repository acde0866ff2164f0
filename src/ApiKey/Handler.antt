-- ===== src/ApiKey/Handler.antt =====
-- internal/apikey/handler.go. `body` is what DecodeJSON makes of the request's body.
use open_aura.Prelude.{Option, List}
use open_aura.Store.{Err, not_found, fk_violation, invalid_input, error_text}
use open_aura.Effect.{pure, map_err, ◌>>=◌, ◌>>◌}
use open_aura.Httpx.{
  Request, Response, Handler, write_json, write_error, no_content, pagination, decode_json,
  require_uuid,
}
use open_aura.Auth.{require_app_id}
use open_aura.ApiKey.{ApiKey, CreateInput}
use open_aura.ApiKey.Repository

-- writeRepoError
unfoldable pub write_api_key_error : {A : Type 0} → Err → Response A
write_api_key_error not_found = write_error 404 "not found"
write_api_key_error (invalid_input s) = write_error 400 (error_text (invalid_input s))
write_api_key_error fk_violation = write_error 400 (error_text fk_violation)
write_api_key_error e = write_error 500 "internal server error"

-- AdminCreate
unfoldable pub admin_create : Request → Option CreateInput → Handler ApiKey
admin_create r body = do
  app ← require_uuid (r.path_value "id") "invalid app id"
  b ← decode_json body
  k ← map_err (write_api_key_error) (Repository.create app b)
  pure (write_json 201 k)

-- Create
unfoldable pub create : Request → Option CreateInput → Handler ApiKey
create r body = do
  app ← require_app_id r
  b ← decode_json body
  k ← map_err (write_api_key_error) (Repository.create app b)
  pure (write_json 201 k)

-- Get
unfoldable pub get : Request → Handler ApiKey
get r = do
  app ← require_app_id r
  id ← require_uuid (r.path_value "id") "invalid api key id"
  k ← map_err (write_api_key_error) (Repository.get_by_id app id)
  pure (write_json 200 k)

-- List
unfoldable pub list : Request → Handler (List ApiKey)
list r = do
  app ← require_app_id r
  let (limit, offset) = pagination r
  keys ←
      map_err (write_api_key_error)
        (Repository.list (record { app_id = app; limit = limit; offset = offset }))
  pure (write_json 200 keys)

-- Delete
unfoldable pub delete : Request → Handler (Unit {0})
delete r = do
  app ← require_app_id r
  id ← require_uuid (r.path_value "id") "invalid api key id"
  map_err (write_api_key_error) (Repository.revoke app id)
  pure no_content
