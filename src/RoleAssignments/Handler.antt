-- ===== src/RoleAssignments/Handler.antt =====
-- internal/roleassignments/handler.go. `body` is what DecodeJSON makes of the request's body.
use open_aura.Prelude.{Option, List}
use open_aura.Schema.{RoleAssignment}
use open_aura.Effect.{pure, map_err, ◌>>=◌, ◌>>◌}
use open_aura.Httpx.{
  Request, RepoErrorMessages, Handler, write_json, no_content, write_repo_error, pagination,
  decode_json, require_uuid, query_uuid,
}
use open_aura.Auth.{require_app_id}
use open_aura.RoleAssignments.{CreateInput, UpdateInput}
use open_aura.RoleAssignments.Repository

abbrev pub repo_error_messages : RepoErrorMessages
repo_error_messages = record {
  not_found_text = "role assignment not found";
  conflict_text = "role assignment already exists";
  fk_violation_text = "user_id, role_id, or tenant_id does not exist";
}

-- Create
unfoldable pub create : Request → Option CreateInput → Handler RoleAssignment
create r body = do
  app ← require_app_id r
  b ← decode_json body
  a ← map_err (write_repo_error repo_error_messages) (Repository.create app b)
  pure (write_json 201 a)

-- Get
unfoldable pub get : Request → Handler RoleAssignment
get r = do
  app ← require_app_id r
  id ← require_uuid (r.path_value "id") "invalid role assignment id"
  a ← map_err (write_repo_error repo_error_messages) (Repository.get_by_id app id)
  pure (write_json 200 a)

-- List
unfoldable pub list : Request → Handler (List RoleAssignment)
list r = do
  app ← require_app_id r
  let (limit, offset) = pagination r
  user ← query_uuid (r.query "user_id") "invalid user_id"
  role ← query_uuid (r.query "role_id") "invalid role_id"
  tenant ← query_uuid (r.query "tenant_id") "invalid tenant_id"
  items ← map_err (write_repo_error repo_error_messages) (
      Repository.list (record {
        app_id = app;
        user_id = user;
        role_id = role;
        tenant_id = tenant;
        limit = limit;
        offset = offset;
      }))
  pure (write_json 200 items)

-- Update
unfoldable pub update : Request → Option UpdateInput → Handler RoleAssignment
update r body = do
  app ← require_app_id r
  id ← require_uuid (r.path_value "id") "invalid role assignment id"
  b ← decode_json body
  a ← map_err (write_repo_error repo_error_messages) (Repository.update app id b)
  pure (write_json 200 a)

-- Delete
unfoldable pub delete : Request → Handler (Unit {0})
delete r = do
  app ← require_app_id r
  id ← require_uuid (r.path_value "id") "invalid role assignment id"
  map_err (write_repo_error repo_error_messages) (Repository.soft_delete app id)
  pure no_content
