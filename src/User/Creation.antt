-- ===== src/User/Creation.antt =====
-- POST /users: each way in which Create of internal/user can end.
use open_aura.Prelude.{
  ◌≡◌, ◌≢◌, refl, ◌∙◌, ap, ◌+◌, Bool, false, ◌&&◌, ◌==◌, str_eq, none, some, List, [], ◌∷◌, any,
  String, if◌then◌else◌, arith,
}
use open_aura.Json.{Fields}
use open_aura.Schema.{Uuid, Db, User, nil_uuid, is_null}
use open_aura.Schema.Constraints.{user_table}
use open_aura.Schema.Writes.{insert_user}
use open_aura.Sql.{refuses_insert}
use open_aura.Store.{Err, conflict, fk_violation, map_write_error}
use open_aura.Effect.{Env, World, Result, ok, err, up, ◌>>=◌, map_err, exec, step}
use open_aura.Effect.Laws.{bind_ok, skipped, now_runs, new_uuid_runs}
use open_aura.Httpx.{require_metadata, normalize_metadata}
use open_aura.User.{CreateInput}
use open_aura.User.Repository.{create, normalize_email}

-- An active user of the app has the email.
abbrev pub is_taken : Uuid → String → Db → Bool
is_taken app email db =
    any (λ (s : User). is_null s.deleted_at && app == s.app_id && str_eq email s.email) db.users

-- What the creation of `u` replies.
abbrev pub expected_reply : User → Db → Result Err User
expected_reply u db =
    if is_taken u.app_id u.email db
    then err conflict
    else if any (λ a. a.id == u.app_id) db.apps
    then ok u
    else err fk_violation

new_key_clash :
    (u : User) (rows : List User)
    → u.deleted_at ≡ none
    → any (λ (s : User). s.id == u.id) rows ≡ false
    → refuses_insert u rows
      ≡ any
          (λ (s : User). is_null s.deleted_at && u.app_id == s.app_id && str_eq u.email s.email)
          rows
unfolding refuses_insert
new_key_clash u [] d h = refl
new_key_clash u (s ∷ rows) d h = ground (arith, new_key_clash u rows d)

insert_user_reply :
    (u : User) (db : Db) (env : Env) (w : World)
    → u.deleted_at ≡ none
    → env.others w.tick w.db ≡ db
    → env.fault w.tick ≡ up
    → any (λ (s : User). s.id == u.id) db.users ≡ false
    → (map_err map_write_error (exec (insert_user u)) env w).0 ≡ expected_reply u db
unfolding map_err exec insert_user map_write_error
insert_user_reply u db env w d o f h = let e = new_key_clash u db.users d h in ground (arith, e)

module _ (env : Env) (w : World) (app : Uuid) (input : CreateInput) (email : String) (fs : Fields)
    (id : Uuid) where
  -- the row that Create inserts
  abbrev pub created_user : User
  created_user = record {
    id = id;
    app_id = app;
    email = email;
    metadata = fs;
    created_at = env.now w.tick;
    updated_at = env.now w.tick;
    deleted_at = none;
  }

  metadata_runs :
      normalize_metadata input.metadata ≡ some fs
      → require_metadata input.metadata env w ≡ (ok fs, w)
  unfolding require_metadata ◌>>=◌
  metadata_runs h = ground arith

  create_inserts :
      app ≢ nil_uuid
      → normalize_email input.email env w ≡ (ok email, w)
      → normalize_metadata input.metadata ≡ some fs
      → env.new_uuid (w.tick + 1) ≡ some id
      → create app input env w
        ≡ map_err map_write_error (exec (insert_user created_user)) env (step (step w))
  unfolding create
  create_inserts a n m u =
      bind_ok _ _ env w w email n
      ∙ bind_ok _ _ env w w fs (metadata_runs m)
      ∙ skipped _ _ env w (app == nil_uuid) (ground arith)
      ∙ bind_ok _ _ env w (step w) (env.now w.tick) (now_runs env w)
      ∙ bind_ok _ _ env (step w) (step (step w)) id (new_uuid_runs env (step w) id u)

  -- With an email and metadata that are accepted, a new identifier and a database that answers, a user
  -- is created exactly when the app exists and no active user of the app has the normalised email: a
  -- taken email is a conflict, a missing app a violated foreign key.
  pub create_user_decides :
      app ≢ nil_uuid
      → normalize_email input.email env w ≡ (ok email, w)
      → normalize_metadata input.metadata ≡ some fs
      → env.new_uuid (w.tick + 1) ≡ some id
      → env.fault (w.tick + 1 + 1) ≡ up
      → any (λ (s : User). s.id == id) (env.others (w.tick + 1 + 1) w.db).users ≡ false
      → (create app input env w).0 ≡ expected_reply created_user (env.others (w.tick + 1 + 1) w.db)
  create_user_decides a n m u f h =
      ap (λ x. x.0) (create_inserts a n m u)
      ∙ insert_user_reply created_user (env.others (w.tick + 1 + 1) w.db) env (step (step w)) refl
          refl f h
