-- ===== src/User/Repository.antt =====
-- internal/user/repository.go
use open_aura.Prelude.{
  Bool, true, false, not, ◌&&◌, ◌||◌, Option, none, some, String, List, pos_part, ◌==◌, str_eq,
  if◌then◌else◌,
}
use open_aura.Json.{RawMessage, Fields}
use open_aura.Text.{trim_space, to_lower, contains}
use open_aura.Schema.{Uuid, nil_uuid, is_null, User}
use open_aura.Schema.Writes.{insert_user, update_user, delete_user}
use open_aura.Sql.{select_one, select_page}
use open_aura.Store.{
  Err, not_found, invalid_input, invalid_email, map_read_error, map_write_error, map_update_error,
  wrap_error,
}
use open_aura.Effect
use open_aura.Effect.{
  Env, M, Result, ok, err, pure, raise, lift, asks, map_err, ◌>>=◌, ◌>>◌, new_uuid, query, exec,
  row,
}
use open_aura.Httpx.{clamp_pagination, require_metadata}
use open_aura.User.{CreateInput, UpdateInput, ListFilter}

-- normalizeEmail, which NormalizeEmail exports
unfoldable pub normalize_email : String → M Err String
normalize_email email = do
  lower ← asks (λ env. env.unicode_lower)
  let email' = trim_space (to_lower lower email)
  if str_eq email' "" || not (contains email' "@") then raise invalid_email else pure email'

-- `create`, which Create calls on the pool and CreateTx inside a transaction
unfoldable pub create : Uuid → CreateInput → M Err User
unfolding normalize_email
create app input = do
  email ← normalize_email input.email
  metadata ← require_metadata input.metadata
  if app == nil_uuid then raise (invalid_input "app_id is required") else do
    t ← Effect.now
    id ← new_uuid
    map_err map_write_error (
        exec (
          insert_user (record {
            id = id;
            app_id = app;
            email = email;
            metadata = metadata;
            created_at = t;
            updated_at = t;
            deleted_at = none;
          })))

-- GetByID
unfoldable pub get_by_id : Uuid → Uuid → M Err User
get_by_id app id = map_err map_read_error (
    query (λ db.
      row (select_one (λ r. r.id == id && r.app_id == app && is_null r.deleted_at) db.users)))

-- GetByEmail
unfoldable pub get_by_email : Uuid → String → M Err User
unfolding normalize_email
get_by_email app email = do
  normalized ← normalize_email email
  map_err map_read_error (
      query (λ db. row (
        select_one (λ r. r.app_id == app && str_eq r.email normalized && is_null r.deleted_at)
          db.users)))

-- List
unfoldable pub list : ListFilter → M Err (List User)
unfolding clamp_pagination
list f =
    let (limit, offset) = clamp_pagination f.limit f.offset in
    map_err wrap_error (
      query (λ db. ok (
        select_page (λ r. r.app_id == f.app_id && is_null r.deleted_at) (λ r. r.created_at)
          (pos_part limit) (pos_part offset) db.users)))

-- the email and the metadata that Update writes: the given ones, or else the current ones
abbrev pub updated_email : String → Option String → M Err String
updated_email current none = pure current
updated_email current (some raw) = normalize_email raw

abbrev pub updated_metadata : Fields → Option RawMessage → M Err Fields
updated_metadata current none = pure current
updated_metadata current (some raw) = require_metadata raw

abbrev pub nothing_given : UpdateInput → Bool
nothing_given input = elim input.email [
  | none ↦ elim input.metadata [ none ↦ true | some _ ↦ false ]
  | some _ ↦ false
]

-- Update
unfoldable pub update : Uuid → Uuid → UpdateInput → M Err User
unfolding get_by_id normalize_email
update app id input =
    if nothing_given input then raise (invalid_input "email or metadata is required") else do
      current ← get_by_id app id
      email ← updated_email current.email input.email
      metadata ← updated_metadata current.metadata input.metadata
      t ← Effect.now
      map_err map_update_error (
          exec (
            update_user (λ r. r.id == id && r.app_id == app && is_null r.deleted_at)
              (λ r. record r { email = email; metadata = metadata; updated_at = t })))

-- SoftDelete
unfoldable pub soft_delete : Uuid → Uuid → M Err (Unit {0})
soft_delete app id = do
  t ← Effect.now
  n ←
      map_err wrap_error
        (exec (delete_user (λ r. r.id == id && r.app_id == app && is_null r.deleted_at) t))
  if n == 0 then raise not_found else pure tt
