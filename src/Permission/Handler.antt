-- ===== src/Permission/Handler.antt =====
-- internal/permission/handler.go. `body` is what DecodeJSON makes of the request's body.
use open_aura.Prelude.{Option, List}
use open_aura.Schema.{Permission}
use open_aura.Effect.{pure, map_err, ◌>>=◌, ◌>>◌}
use open_aura.Httpx.{
  Request, RepoErrorMessages, Handler, write_json, no_content, write_repo_error, pagination,
  decode_json, require_uuid, query_uuid,
}
use open_aura.Auth.{require_app_id}
use open_aura.Permission.{CreateInput}
use open_aura.Permission.Repository

abbrev pub repo_error_messages : RepoErrorMessages
repo_error_messages = record {
  not_found_text = "permission not found";
  conflict_text = "permission already exists";
  fk_violation_text = "role_id, resource_id, or action_id does not exist";
}

-- Create
unfoldable pub create : Request → Option CreateInput → Handler Permission
create r body = do
  app ← require_app_id r
  role ← require_uuid (r.path_value "id") "invalid role id"
  b ← decode_json body
  p ← map_err (write_repo_error repo_error_messages) (Repository.create app role b)
  pure (write_json 201 p)

-- Get
unfoldable pub get : Request → Handler Permission
get r = do
  app ← require_app_id r
  role ← require_uuid (r.path_value "id") "invalid role id"
  id ← require_uuid (r.path_value "permission_id") "invalid permission id"
  p ← map_err (write_repo_error repo_error_messages) (Repository.get_by_id app role id)
  pure (write_json 200 p)

-- List
unfoldable pub list : Request → Handler (List Permission)
list r = do
  app ← require_app_id r
  role ← require_uuid (r.path_value "id") "invalid role id"
  let (limit, offset) = pagination r
  resource ← query_uuid (r.query "resource_id") "invalid resource_id"
  action ← query_uuid (r.query "action_id") "invalid action_id"
  items ← map_err (write_repo_error repo_error_messages) (
      Repository.list (record {
        app_id = app;
        role_id = role;
        resource_id = resource;
        action_id = action;
        limit = limit;
        offset = offset;
      }))
  pure (write_json 200 items)

-- Delete
unfoldable pub delete : Request → Handler (Unit {0})
delete r = do
  app ← require_app_id r
  role ← require_uuid (r.path_value "id") "invalid role id"
  id ← require_uuid (r.path_value "permission_id") "invalid permission id"
  map_err (write_repo_error repo_error_messages) (Repository.soft_delete app role id)
  pure no_content
