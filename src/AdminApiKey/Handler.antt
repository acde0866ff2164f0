-- ===== src/AdminApiKey/Handler.antt =====
-- internal/adminapikey/handler.go. `body` is what DecodeJSON makes of the request's body.
use open_aura.Prelude.{Option, List}
use open_aura.Effect.{pure, map_err, ◌>>=◌, ◌>>◌}
use open_aura.Httpx.{
  Request, RepoErrorMessages, Handler, write_json, no_content, write_repo_error, pagination,
  decode_json, require_uuid,
}
use open_aura.AdminApiKey.{AdminApiKey, CreateInput}
use open_aura.AdminApiKey.Repository

abbrev pub repo_error_messages : RepoErrorMessages
repo_error_messages = record {
  not_found_text = "admin api key not found";
  conflict_text = "admin api key already exists";
  fk_violation_text = "";
}

-- Create
unfoldable pub create : Option CreateInput → Handler AdminApiKey
create body = do
  b ← decode_json body
  k ← map_err (write_repo_error repo_error_messages) (Repository.create b)
  pure (write_json 201 k)

-- Get
unfoldable pub get : Request → Handler AdminApiKey
get r = do
  id ← require_uuid (r.path_value "id") "invalid admin api key id"
  k ← map_err (write_repo_error repo_error_messages) (Repository.get_by_id id)
  pure (write_json 200 k)

-- List
unfoldable pub list : Request → Handler (List AdminApiKey)
list r = do
  let (limit, offset) = pagination r
  keys ←
      map_err (write_repo_error repo_error_messages)
        (Repository.list (record { limit = limit; offset = offset }))
  pure (write_json 200 keys)

-- Delete
unfoldable pub delete : Request → Handler (Unit {0})
delete r = do
  id ← require_uuid (r.path_value "id") "invalid admin api key id"
  map_err (write_repo_error repo_error_messages) (Repository.revoke id)
  pure no_content
