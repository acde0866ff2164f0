-- ===== src/User/Refinement.antt =====
-- internal/user/repository.go as a map from the app and the id to the user.
use open_aura.Prelude.{
  ◌+◌, ◌≡◌, refl, Option, none, some, String, Bool, true, subst, ◌≢◌, ◌==◌, arith,
}
use open_aura.Json.{Fields, RawMessage}
use open_aura.Schema.{Uuid, Time, Db, User, nil_uuid}
use open_aura.Schema.Constraints.{user_table}
use open_aura.Schema.Writes.{delete_user}
use open_aura.Sql.{select_one}
use open_aura.Store.{
  Err, not_found, invalid_input, map_read_error, map_write_error, map_update_error, wrap_error,
  DbError,
}
use open_aura.Effect.{Result, ok, err, Env, World, ◌>>=◌, row, renamed}
use open_aura.Effect.Quiet.{
  IsQuiet, Ends, Ends-raise, Ends-if, Ends-bind, Ends-read, Ends-write, Ends-now, Ends-query,
  Ends-write_bind, Ends-new_uuid,
}
use open_aura.User.{CreateInput, UpdateInput}
use open_aura.User.Directory.{at, directory}
use open_aura.User.Repository.{
  updated_email, updated_metadata, nothing_given, create, get_by_id, update, soft_delete,
}
use open_aura.User.Promise.{
  Created, no_app, no_random, Updated, Deleted, got, IsEmailOf, IsMetadataOf,
}
use open_aura.User.Steps.{
  Created-insert, Created-refused, Updated-update, Updated-refused, Deleted-delete,
}
use open_aura.User.Inputs.{
  metadata_stays, email_stays, updated_email_stays, updated_metadata_stays, normalize_email-IsEmail,
  normalize_email_fails, require_metadata-IsMetadata, require_metadata_fails,
}

delete_user_answers :
    (db : Db) (p : User → Bool) (t : Time) (e : DbError) → ¬ (delete_user p t db ≡ err e)
unfolding delete_user
delete_user_answers db p t e h = absurd (ground arith)

read_reply : (o : Option User) → renamed map_read_error (row o) ≡ got o
unfolding map_read_error
read_reply none = refl
read_reply (some u) = refl

row_found : (o : Option User) (u : User) → row o ≡ ok u → o ≡ some u
row_found none u h = absurd (ground arith)
row_found (some v) u h = ground arith

row_missing :
    (o : Option User) (e : DbError) → row o ≡ err e → (o ≡ none) × (not_found ≡ map_read_error e)
unfolding map_read_error
row_missing none e h = (refl, ground arith)
row_missing (some v) e h = absurd (ground arith)

module _ (env : Env) (w : World) (db : Db) where
  create-Ends :
      (app : Uuid) (input : CreateInput)
      → Ends env db
          (λ r db'. Created env w.tick app input db r (directory db'))
          w
          (create app input)
  unfolding create
  create-Ends app input =
      let P : Result Err User → Type 0 = λ r. Created env w.tick app input db r (directory db) in
      let R : Result Err User → Db → Type 0 =
        λ r db'. Created env w.tick app input db r (directory db') in
      Ends-bind env db R w _ _ (email_stays env w input.email)
        (λ e h.
          let (bad, same) = normalize_email_fails env w input.email e h in
          subst (λ x. P (err x)) same (Created.no_email bad))
        λ email h.
          let is_email = normalize_email-IsEmail env w input.email email h in
          Ends-bind env db R w _ _ (metadata_stays env w input.metadata)
            (λ e x.
              let (bad, same) = require_metadata_fails env w input.metadata e x in
              subst (λ y. P (err y)) same (Created.no_object bad))
            λ metadata x.
              let is_metadata = require_metadata-IsMetadata env w input.metadata metadata x in
              Ends-if env db R w (app == nil_uuid) _ _
                (λ b. Ends-raise env db R w _ (no_app (ground arith)))
                (λ b. Ends-now env db R w _ (
                  Ends-new_uuid env db R _ _ no_random λ id random.
                    let some_app : app ≢ nil_uuid = ground arith in
                    Ends-write env db R _ map_write_error _
                      (Created-refused env w.tick app input db email metadata id some_app is_email
                        is_metadata random)
                      (Created-insert env w.tick app input db email metadata id some_app is_email
                        is_metadata random)))

  -- The email and the metadata that Update writes.
  emails_differ :
      (app id : Uuid) (input : UpdateInput) (u : User) (o : Option String)
      → input.email ≡ o
      → (v : World)
      → ((e : Err)
          → (updated_email u.email o env v).0 ≡ err e
          → Updated env w.tick app id input db (err e) (directory db))
        × ((email : String)
            → (updated_email u.email o env v).0 ≡ ok email
            → IsEmailOf env o u email)
  unfolding ◌>>=◌
  emails_differ app id input u none k v = (λ e h. absurd (ground arith), λ email h. ground arith)
  emails_differ app id input u (some raw) k v = (
    λ e h.
        let (bad, same) = normalize_email_fails env v raw e h in
        subst (λ x. Updated env w.tick app id input db (err x) (directory db)) same
          (Updated.no_email raw k bad),
    λ email h. normalize_email-IsEmail env v raw email h,
  )

  metadata_differ :
      (app id : Uuid) (input : UpdateInput) (u : User) (o : Option RawMessage)
      → input.metadata ≡ o
      → (v : World)
      → ((e : Err)
          → (updated_metadata u.metadata o env v).0 ≡ err e
          → Updated env w.tick app id input db (err e) (directory db))
        × ((fs : Fields) → (updated_metadata u.metadata o env v).0 ≡ ok fs → IsMetadataOf o u fs)
  unfolding ◌>>=◌
  metadata_differ app id input u none k v = (λ e h. absurd (ground arith), λ fs h. ground arith)
  metadata_differ app id input u (some raw) k v = (
    λ e h.
        let (bad, same) = require_metadata_fails env v raw e h in
        subst (λ x. Updated env w.tick app id input db (err x) (directory db)) same
          (Updated.no_object raw k bad),
    λ fs h. require_metadata-IsMetadata env v raw fs h,
  )

  nothing-Updated :
      (app id : Uuid) (input : UpdateInput) (o : Option String) (p : Option RawMessage)
      → input.email ≡ o
      → input.metadata ≡ p
      → nothing_given (record { email = o; metadata = p }) ≡ true
      → Updated env w.tick app id input db
          (err (invalid_input "email or metadata is required"))
          (directory db)
  nothing-Updated app id input none none h k n = Updated.nothing h k
  nothing-Updated app id input none (some m) h k n = absurd (ground arith)
  nothing-Updated app id input (some e) p h k n = absurd (ground arith)

  update-Ends :
      (app id : Uuid) (input : UpdateInput)
      → Ends env db
          (λ r db'. Updated env w.tick app id input db r (directory db'))
          w
          (update app id input)
  unfolding update get_by_id
  update-Ends app id input =
      let R : Result Err User → Db → Type 0 =
        λ r db'. Updated env w.tick app id input db r (directory db') in
      let P : Err → Type 0 = λ e. Updated env w.tick app id input db (err e) (directory db) in
      let next : World = record w { db = env.others w.tick w.db; tick = w.tick + 1 } in
      Ends-if env db R w _ _ _
        (λ b.
          Ends-raise env db R w _
            (nothing-Updated app id input input.email input.metadata refl refl b))
        (λ b.
          Ends-read env db R w map_read_error _ _
            (λ e h.
              let (none_there, same) = row_missing (select_one (at app id) db.users) e h in
              subst P same (Updated.not_there none_there))
            λ u h.
              let there = row_found (select_one (at app id) db.users) u h in
              Ends-bind env db R _ _ _ (updated_email_stays env _ u.email input.email)
                (emails_differ app id input u input.email refl next).0
                λ email e.
                  let is_email = (emails_differ app id input u input.email refl next).1 email e in
                  Ends-bind env db R _ _ _ (updated_metadata_stays env _ u.metadata input.metadata)
                    (metadata_differ app id input u input.metadata refl next).0
                    λ fs f.
                      let is_metadata =
                        (metadata_differ app id input u input.metadata refl next).1 fs f in
                      Ends-now env db R _ _ (
                        Ends-write env db R _ map_update_error _
                          (Updated-refused env w.tick app id input db u email fs there is_email
                            is_metadata)
                          (Updated-update env w.tick app id input db u email fs there is_email
                            is_metadata)))

  soft_delete-Ends :
      (app id : Uuid)
      → Ends env db
          (λ r db'. Deleted app id (directory db) r (directory db'))
          w
          (soft_delete app id)
  unfolding soft_delete
  soft_delete-Ends app id =
      let R : Result Err (Unit {0}) → Db → Type 0 =
        λ r db'. Deleted app id (directory db) r (directory db') in
      Ends-now env db R w _ (
        Ends-write_bind env db R _ wrap_error _ _ (λ e h. absurd (delete_user_answers db _ _ e h))
          (λ n db' h. Deleted-delete app id db _ n db' h env))

  get_by_id-Ends :
      (app id : Uuid)
      → Ends env db
          (λ r db'. (r ≡ got (directory db app id)) × (directory db' ≡ directory db))
          w
          (get_by_id app id)
  unfolding get_by_id
  get_by_id-Ends app id =
      Ends-query env db (λ r db'. (r ≡ got (directory db app id)) × (directory db' ≡ directory db))
        w map_read_error _ (read_reply (select_one (at app id) db.users), refl)

-- When the database answers and no other request changes it, the repository works on the users as on a
-- map from the app and the id to the user. Create adds the user that the input describes, with the
-- plain form of the email, the sent metadata and an id that no user of the app has, or fails for a
-- reason: the email or the metadata are none, no app is given or there is no such app, there is no
-- random value, or the email or the id is taken. Update rewrites the email and the metadata of the user
-- of the app to the given ones and keeps those that are not given, or fails for a reason: nothing is
-- given, there is no such user, the email or the metadata are none, or another user has the email.
-- SoftDelete removes the user and says that it is not found exactly when there is none, and GetByID
-- replies what the map has. What fails leaves the map as it was, and the users under other ids and of
-- other apps stay.
pub users-IsDirectory :
    (app id : Uuid) (new : CreateInput) (changes : UpdateInput) (env : Env) (w : World)
    → IsQuiet env
    → Created env w.tick app new w.db
        (create app new env w).0
        (directory (create app new env w).1.db)
      × Updated env w.tick app id changes w.db
          (update app id changes env w).0
          (directory (update app id changes env w).1.db)
      × Deleted app id
          (directory w.db)
          (soft_delete app id env w).0
          (directory (soft_delete app id env w).1.db)
      × ((get_by_id app id env w).0 ≡ got (directory w.db app id))
      × (directory (get_by_id app id env w).1.db ≡ directory w.db)
users-IsDirectory app id new changes env w q =
    let found = (get_by_id-Ends env w w.db app id).at q refl in
    (
      (create-Ends env w w.db app new).at q refl,
      (update-Ends env w w.db app id changes).at q refl,
      (soft_delete-Ends env w w.db app id).at q refl,
      found.0,
      found.1,
    )
