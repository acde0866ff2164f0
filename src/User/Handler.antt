-- ===== src/User/Handler.antt =====
-- internal/user/handler.go. `body` is what DecodeJSON makes of the request's body.
use open_aura.Prelude.{Option, List}
use open_aura.Schema.{User}
use open_aura.Store.{Err, not_found, conflict, invalid_input, invalid_email, error_text}
use open_aura.Effect.{pure, map_err, ◌>>=◌, ◌>>◌}
use open_aura.Httpx.{
  Request, Response, Handler, write_json, write_error, no_content, pagination, decode_json,
  require_uuid,
}
use open_aura.Auth.{require_app_id}
use open_aura.User.{CreateInput, UpdateInput}
use open_aura.User.Repository

-- writeRepoError
unfoldable pub write_user_error : {A : Type 0} → Err → Response A
write_user_error not_found = write_error 404 "user not found"
write_user_error conflict = write_error 409 "user with this email already exists in app"
write_user_error invalid_email = write_error 400 (error_text invalid_email)
write_user_error (invalid_input s) = write_error 400 (error_text (invalid_input s))
write_user_error e = write_error 500 "internal server error"

-- Create
unfoldable pub create : Request → Option CreateInput → Handler User
create r body = do
  app ← require_app_id r
  b ← decode_json body
  a ← map_err (write_user_error) (Repository.create app b)
  pure (write_json 201 a)

-- Get
unfoldable pub get : Request → Handler User
get r = do
  app ← require_app_id r
  id ← require_uuid (r.path_value "id") "invalid user id"
  a ← map_err (write_user_error) (Repository.get_by_id app id)
  pure (write_json 200 a)

-- List
unfoldable pub list : Request → Handler (List User)
list r = do
  app ← require_app_id r
  let (limit, offset) = pagination r
  items ←
      map_err (write_user_error)
        (Repository.list (record { app_id = app; limit = limit; offset = offset }))
  pure (write_json 200 items)

-- Update
unfoldable pub update : Request → Option UpdateInput → Handler User
update r body = do
  app ← require_app_id r
  id ← require_uuid (r.path_value "id") "invalid user id"
  b ← decode_json body
  a ← map_err (write_user_error) (Repository.update app id b)
  pure (write_json 200 a)

-- Delete
unfoldable pub delete : Request → Handler (Unit {0})
delete r = do
  app ← require_app_id r
  id ← require_uuid (r.path_value "id") "invalid user id"
  map_err (write_user_error) (Repository.soft_delete app id)
  pure no_content
