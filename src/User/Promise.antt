-- ===== src/User/Promise.antt =====
-- What Create, Update, SoftDelete and GetByID of internal/user/repository.go promise of the map of users,
-- for the input that they are given.
use open_aura.Prelude.{
  ℕ, ◌+◌, ◌≡◌, ◌≢◌, ◌⊎◌, Option, none, some, String, Bool, true, false, not, ◌&&◌, any, ◌==◌,
  str_eq,
}
use open_aura.Json.{RawMessage, absent, object, null_literal, refused, Fields, end}
use open_aura.Text.{trim_space, to_lower, contains}
use open_aura.Schema.{Uuid, Time, Db, User, nil_uuid, is_null}
use open_aura.Store.{Err, not_found, conflict, fk_violation, invalid_input, invalid_email, internal}
use open_aura.Effect.{Result, ok, err, Env}
use open_aura.User.{CreateInput, UpdateInput}
use open_aura.User.Creation.{is_taken}
use open_aura.User.Directory.{Directory, put, remove, change, directory}

-- The text in lower case, without the blanks around it.
abbrev pub plain : Env → String → String
plain env raw = trim_space (to_lower env.unicode_lower raw)

-- The plain form of an address: it is not blank and has an "@".
pub record IsEmail (env : Env) (raw email : String) : Type 0 where
  pub normal : email ≡ plain env raw
  pub given : str_eq email "" ≡ false
  pub sign : contains email "@" ≡ true

abbrev pub IsNoEmail : Env → String → Type 0
IsNoEmail env raw = (str_eq (plain env raw) "" ≡ true) ⊎ (contains (plain env raw) "@" ≡ false)

-- the fields of a JSON object, or none when nothing was sent
abbrev pub IsMetadata : RawMessage → Fields → Type 0
IsMetadata absent fs = fs ≡ end
IsMetadata (object sent) fs = fs ≡ sent
IsMetadata null_literal fs = ⊥
IsMetadata refused fs = ⊥

abbrev pub IsNoObject : RawMessage → Type 0
IsNoObject raw = (raw ≡ null_literal) ⊎ (raw ≡ refused)

-- What Update writes: the given value, or else the one that the user has.
abbrev pub IsEmailOf : Env → Option String → User → String → Type 0
IsEmailOf env none u email = email ≡ u.email
IsEmailOf env (some raw) u email = IsEmail env raw email

abbrev pub IsMetadataOf : Option RawMessage → User → Fields → Type 0
IsMetadataOf none u fs = fs ≡ u.metadata
IsMetadataOf (some raw) u fs = IsMetadata raw fs

-- An active user of the app under another id has the email.
abbrev pub is_taken_beside : Uuid → Uuid → String → Db → Bool
is_taken_beside app id email db =
    any
      (λ (s : User).
        not (s.id == id) && is_null s.deleted_at && app == s.app_id && str_eq email s.email)
      db.users

-- the new user, with its time of creation and its identifier
abbrev pub new_user : Uuid → String → Fields → Time → Uuid → User
new_user app email metadata t id = record {
  id = id;
  app_id = app;
  email = email;
  metadata = metadata;
  created_at = t;
  updated_at = t;
  deleted_at = none;
}

-- A user with a new email and metadata.
abbrev pub rewritten : String → Fields → Time → User → User
rewritten email metadata t r = record r { email = email; metadata = metadata; updated_at = t }

-- `start` is the tick of the first step that leaves the program.
-- What Create does: it adds the user that the input describes, or it fails for a reason.
pub data Created (env : Env) (start : ℕ) (app : Uuid) (input : CreateInput) (db : Db)
    : Result Err User → Directory → Type 0 where
  added :
      (email : String) (metadata : Fields) (id : Uuid)
      → app ≢ nil_uuid
      → IsEmail env input.email email
      → IsMetadata input.metadata metadata
      → env.new_uuid (start + 1) ≡ some id
      → any (λ a. a.id == app) db.apps ≡ true
      → is_taken app email db ≡ false
      → directory db app id ≡ none
      → Created env start app input db
          (ok (new_user app email metadata (env.now start) id))
          (put (new_user app email metadata (env.now start) id) (directory db))
  no_email :
      IsNoEmail env input.email → Created env start app input db (err invalid_email) (directory db)
  no_object :
      IsNoObject input.metadata
      → Created env start app input db
          (err (invalid_input "metadata must be a JSON object"))
          (directory db)
  no_app :
      app ≡ nil_uuid
      → Created env start app input db (err (invalid_input "app_id is required")) (directory db)
  no_random :
      env.new_uuid (start + 1) ≡ none → Created env start app input db (err internal) (directory db)
  -- the email, or the new identifier
  taken :
      (email : String) (id : Uuid)
      → IsEmail env input.email email
      → env.new_uuid (start + 1) ≡ some id
      → (is_taken app email db ≡ true) ⊎ (any (λ (s : User). s.id == id) db.users ≡ true)
      → Created env start app input db (err conflict) (directory db)
  missing_app :
      any (λ a. a.id == app) db.apps ≡ false
      → Created env start app input db (err fk_violation) (directory db)

-- What Update does: it rewrites the user of the app with the id as the input says, or it fails for a
-- reason.
pub data Updated (env : Env) (start : ℕ) (app id : Uuid) (input : UpdateInput) (db : Db)
    : Result Err User → Directory → Type 0 where
  changed :
      (u : User) (email : String) (metadata : Fields)
      → directory db app id ≡ some u
      → IsEmailOf env input.email u email
      → IsMetadataOf input.metadata u metadata
      → is_taken_beside app id email db ≡ false
      → Updated env start app id input db
          (ok (rewritten email metadata (env.now (start + 1)) u))
          (change app id (rewritten email metadata (env.now (start + 1))) (directory db))
  nothing :
      input.email ≡ none
      → input.metadata ≡ none
      → Updated env start app id input db
          (err (invalid_input "email or metadata is required"))
          (directory db)
  not_there :
      directory db app id ≡ none → Updated env start app id input db (err not_found) (directory db)
  no_email :
      (raw : String)
      → input.email ≡ some raw
      → IsNoEmail env raw
      → Updated env start app id input db (err invalid_email) (directory db)
  no_object :
      (raw : RawMessage)
      → input.metadata ≡ some raw
      → IsNoObject raw
      → Updated env start app id input db
          (err (invalid_input "metadata must be a JSON object"))
          (directory db)
  taken :
      (u : User) (email : String)
      → directory db app id ≡ some u
      → IsEmailOf env input.email u email
      → is_taken_beside app id email db ≡ true
      → Updated env start app id input db (err conflict) (directory db)

-- What SoftDelete does: it removes the user of the app with the id, and says when there is none.
pub data Deleted (app id : Uuid) (d : Directory) : Result Err (Unit {0}) → Directory → Type 0 where
  removed : (u : User) → d app id ≡ some u → Deleted app id d (ok tt) (remove app id d)
  not_there : d app id ≡ none → Deleted app id d (err not_found) d

-- What GetByID replies: the user of the app with the id, if there is one.
abbrev pub got : Option User → Result Err User
got none = err not_found
got (some u) = ok u
