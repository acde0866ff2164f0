-- ===== src/Action/Repository.antt =====
-- internal/action/repository.go
use open_aura.Prelude.{
  Bool, true, false, ◌&&◌, Option, none, some, String, List, pos_part, ◌==◌, str_eq, if◌then◌else◌,
}
use open_aura.Json.{RawMessage, Fields}
use open_aura.Text.{trim_space}
use open_aura.Schema.{Uuid, nil_uuid, is_null, Action}
use open_aura.Schema.Writes.{insert_action, update_action, delete_action}
use open_aura.Sql.{select_one, select_page}
use open_aura.Store.{
  Err, not_found, invalid_input, map_read_error, map_write_error, map_update_error, wrap_error,
}
use open_aura.Effect
use open_aura.Effect.{
  Env, M, Result, ok, err, pure, raise, lift, asks, map_err, ◌>>=◌, ◌>>◌, new_uuid, query, exec,
  row,
}
use open_aura.Httpx.{clamp_pagination, require_metadata}
use open_aura.Action.{CreateInput, UpdateInput, ListFilter}

unfoldable pub normalize_name : String → M Err String
normalize_name name =
    let name' = trim_space name in
    if str_eq name' "" then raise (invalid_input "name is required") else pure name'

-- Create
unfoldable pub create : Uuid → CreateInput → M Err Action
unfolding normalize_name
create app input = if app == nil_uuid then raise (invalid_input "app_id is required") else do
  name ← normalize_name input.name
  metadata ← require_metadata input.metadata
  t ← Effect.now
  id ← new_uuid
  map_err map_write_error (
      exec (
        insert_action (record {
          id = id;
          app_id = app;
          name = name;
          metadata = metadata;
          created_at = t;
          updated_at = t;
          deleted_at = none;
        })))

-- GetByID
unfoldable pub get_by_id : Uuid → Uuid → M Err Action
get_by_id app id = map_err map_read_error (
    query (λ db.
      row (select_one (λ r. r.id == id && r.app_id == app && is_null r.deleted_at) db.actions)))

-- List
unfoldable pub list : ListFilter → M Err (List Action)
unfolding clamp_pagination
list f =
    let (limit, offset) = clamp_pagination f.limit f.offset in
    map_err wrap_error (
      query (λ db. ok (
        select_page (λ r. r.app_id == f.app_id && is_null r.deleted_at) (λ r. r.created_at)
          (pos_part limit) (pos_part offset) db.actions)))

-- the name and the metadata that Update writes: the given ones, or else the current ones
abbrev pub updated_name : String → Option String → M Err String
updated_name current none = pure current
updated_name current (some raw) = normalize_name raw

abbrev pub updated_metadata : Fields → Option RawMessage → M Err Fields
updated_metadata current none = pure current
updated_metadata current (some raw) = require_metadata raw

abbrev pub nothing_given : UpdateInput → Bool
nothing_given input = elim input.name [
  | none ↦ elim input.metadata [ none ↦ true | some _ ↦ false ]
  | some _ ↦ false
]

-- Update
unfoldable pub update : Uuid → Uuid → UpdateInput → M Err Action
unfolding get_by_id normalize_name
update app id input =
    if nothing_given input then raise (invalid_input "name or metadata is required") else do
      current ← get_by_id app id
      name ← updated_name current.name input.name
      metadata ← updated_metadata current.metadata input.metadata
      t ← Effect.now
      map_err map_update_error (
          exec (
            update_action (λ r. r.id == id && r.app_id == app && is_null r.deleted_at)
              (λ r. record r { name = name; metadata = metadata; updated_at = t })))

-- SoftDelete
unfoldable pub soft_delete : Uuid → Uuid → M Err (Unit {0})
soft_delete app id = do
  t ← Effect.now
  n ←
      map_err wrap_error
        (exec (delete_action (λ r. r.id == id && r.app_id == app && is_null r.deleted_at) t))
  if n == 0 then raise not_found else pure tt
