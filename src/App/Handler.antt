-- ===== src/App/Handler.antt =====
-- internal/app/handler.go. `body` is what DecodeJSON makes of the request's body.
use open_aura.Prelude.{Option, List}
use open_aura.Schema.{App}
use open_aura.Effect.{pure, map_err, ◌>>=◌, ◌>>◌}
use open_aura.Httpx.{
  Request, RepoErrorMessages, Handler, write_json, no_content, write_repo_error, pagination,
  decode_json, require_uuid,
}
use open_aura.App.{CreateInput, UpdateInput}
use open_aura.App.Repository

abbrev pub repo_error_messages : RepoErrorMessages
repo_error_messages = record {
  not_found_text = "app not found";
  conflict_text = "";
  fk_violation_text = "";
}

-- Create
unfoldable pub create : Request → Option CreateInput → Handler App
create r body = do
  b ← decode_json body
  a ← map_err (write_repo_error repo_error_messages) (Repository.create b)
  pure (write_json 201 a)

-- Get
unfoldable pub get : Request → Handler App
get r = do
  id ← require_uuid (r.path_value "id") "invalid app id"
  a ← map_err (write_repo_error repo_error_messages) (Repository.get_by_id id)
  pure (write_json 200 a)

-- List
unfoldable pub list : Request → Handler (List App)
list r = do
  let (limit, offset) = pagination r
  items ←
      map_err (write_repo_error repo_error_messages)
        (Repository.list (record { limit = limit; offset = offset }))
  pure (write_json 200 items)

-- Update
unfoldable pub update : Request → Option UpdateInput → Handler App
update r body = do
  id ← require_uuid (r.path_value "id") "invalid app id"
  b ← decode_json body
  a ← map_err (write_repo_error repo_error_messages) (Repository.update id b)
  pure (write_json 200 a)

-- Delete
unfoldable pub delete : Request → Handler (Unit {0})
delete r = do
  id ← require_uuid (r.path_value "id") "invalid app id"
  map_err (write_repo_error repo_error_messages) (Repository.soft_delete id)
  pure no_content
