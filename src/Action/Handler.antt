-- ===== src/Action/Handler.antt =====
-- internal/action/handler.go. `body` is what DecodeJSON makes of the request's body.
use open_aura.Prelude.{Option, List}
use open_aura.Schema.{Action}
use open_aura.Effect.{pure, map_err, ◌>>=◌, ◌>>◌}
use open_aura.Httpx.{
  Request, RepoErrorMessages, Handler, write_json, no_content, write_repo_error, pagination,
  decode_json, require_uuid,
}
use open_aura.Auth.{require_app_id}
use open_aura.Action.{CreateInput, UpdateInput}
use open_aura.Action.Repository

abbrev pub repo_error_messages : RepoErrorMessages
repo_error_messages = record {
  not_found_text = "action not found";
  conflict_text = "action name already exists in app";
  fk_violation_text = "";
}

-- Create
unfoldable pub create : Request → Option CreateInput → Handler Action
create r body = do
  app ← require_app_id r
  b ← decode_json body
  a ← map_err (write_repo_error repo_error_messages) (Repository.create app b)
  pure (write_json 201 a)

-- Get
unfoldable pub get : Request → Handler Action
get r = do
  app ← require_app_id r
  id ← require_uuid (r.path_value "id") "invalid action id"
  a ← map_err (write_repo_error repo_error_messages) (Repository.get_by_id app id)
  pure (write_json 200 a)

-- List
unfoldable pub list : Request → Handler (List Action)
list r = do
  app ← require_app_id r
  let (limit, offset) = pagination r
  items ←
      map_err (write_repo_error repo_error_messages)
        (Repository.list (record { app_id = app; limit = limit; offset = offset }))
  pure (write_json 200 items)

-- Update
unfoldable pub update : Request → Option UpdateInput → Handler Action
update r body = do
  app ← require_app_id r
  id ← require_uuid (r.path_value "id") "invalid action id"
  b ← decode_json body
  a ← map_err (write_repo_error repo_error_messages) (Repository.update app id b)
  pure (write_json 200 a)

-- Delete
unfoldable pub delete : Request → Handler (Unit {0})
delete r = do
  app ← require_app_id r
  id ← require_uuid (r.path_value "id") "invalid action id"
  map_err (write_repo_error repo_error_messages) (Repository.soft_delete app id)
  pure no_content
