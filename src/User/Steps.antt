-- ===== src/User/Steps.antt =====
-- What the statements that write users do to the map of users.
use open_aura.Prelude.{
  ℕ, ◌+◌, ◌≡◌, refl, sym, subst, ap, ◌∙◌, some, String, [], ◌∷◌, ◌++◌, false, ◌&&◌, any, ◌==◌, ◌≢◌,
  arith, inl, inr, Bool-cases, Option-cases, if◌then◌else◌,
}
use open_aura.Json.{Fields}
use open_aura.Schema.{Uuid, Time, Db, User, is_null, nil_uuid}
use open_aura.Schema.Constraints.{user_table, affected, unique_violation, foreign_key_violation}
use open_aura.Schema.Writes.{insert_user, update_user, delete_user}
use open_aura.Sql.{select_one, update_rows, refuses_insert, refuses_update}
use open_aura.Sql.Laws.{update_rows_none}
use open_aura.Store.{Err, not_found, DbError, map_write_error, map_update_error}
use open_aura.User.{CreateInput, UpdateInput}
use open_aura.User.Creation.{is_taken}
use open_aura.User.Promise.{
  Created, added, taken, missing_app, Updated, changed, Deleted, removed, IsEmail, IsMetadata,
  IsEmailOf, IsMetadataOf, is_taken_beside, new_user, rewritten,
}
use open_aura.User.Promise.Deleted.{not_there}
use open_aura.Effect.{ok, err, Env, World, ◌>>=◌, raise, pure}
use open_aura.User.Directory.{
  put, remove, change, at, directory, rows_directory, deleted, deleted_entry, changed_entry,
  put_entry,
}
use open_aura.User.Rows.{
  no_id, no_user, select_one-affected, affected-select_one, refused_key, refused_beside,
  any-select_one,
}

module _ (env : Env) (start : ℕ) (app : Uuid) (input : CreateInput) (db : Db) (email : String)
    (metadata : Fields) (id : Uuid) (some_app : app ≢ nil_uuid)
    (is_email : IsEmail env input.email email) (is_metadata : IsMetadata input.metadata metadata)
    (random : env.new_uuid (start + 1) ≡ some id) where
  abbrev row : User
  row = new_user app email metadata (env.now start) id

  pub Created-insert :
      (u : User) (db' : Db)
      → insert_user row db ≡ ok (u, db')
      → Created env start app input db (ok u) (directory db')
  unfolding insert_user
  Created-insert u db' h = elim (Bool-cases (refuses_insert row db.users)) [
    | inl e ↦ absurd (ground arith)
    | inr e ↦ elim (Bool-cases (any (λ x. x.id == app) db.apps)) [
      | inr f ↦ absurd (ground arith)
      | inl f ↦
          let same : row ≡ u = ground arith in
          let rows : db'.users ≡ db.users ++ row ∷ [] = ground arith in
          let free = no_id row db.users e in
          let key = refused_key row db.users refl in
          let own : is_taken app email db ≡ false = ground arith in
          let after : put row (directory db) ≡ directory db' = λ i x y.
            sym (ap (λ us. rows_directory us x y) rows ∙ put_entry row x y db.users refl free) i in
          subst (λ v. Created env start app input db (ok v) (directory db')) same
            (subst (λ d. Created env start app input db (ok row) d) after
              (added email metadata id some_app is_email is_metadata random f own
                (no_user app id db.users free)))
    ]
  ]

  pub Created-refused :
      (e : DbError)
      → insert_user row db ≡ err e
      → Created env start app input db (err (map_write_error e)) (directory db)
  unfolding insert_user map_write_error
  Created-refused e h = elim (Bool-cases (refuses_insert row db.users)) [
    | inl f ↦
        let key = refused_key row db.users refl in
        let clash : unique_violation ≡ e = ground arith in
        subst (λ x. Created env start app input db (err (map_write_error x)) (directory db)) clash
          (elim (Bool-cases (is_taken app email db)) [
            | inl t ↦ taken email id is_email random (inl t)
            | inr t ↦ taken email id is_email random (inr (ground arith))
          ])
    | inr f ↦ elim (Bool-cases (any (λ x. x.id == app) db.apps)) [
      | inr g ↦
          let missing : foreign_key_violation ≡ e = ground arith in
          subst (λ x. Created env start app input db (err (map_write_error x)) (directory db))
            missing (missing_app g)
      | inl g ↦ absurd (ground arith)
    ]
  ]

module _ (env : Env) (start : ℕ) (app id : Uuid) (input : UpdateInput) (db : Db) (u : User)
    (email : String) (metadata : Fields) (there : directory db app id ≡ some u)
    (is_email : IsEmailOf env input.email u email)
    (is_metadata : IsMetadataOf input.metadata u metadata) where
  abbrev write : User → User
  write = rewritten email metadata (env.now (start + 1))

  refused_update : refuses_update (at app id) write db.users ≡ is_taken_beside app id email db
  unfolding refuses_update
  refused_update =
      let rule = refused_beside app id email metadata (env.now (start + 1)) db db.users in
      let found = any-select_one (at app id) db.users u there in rule ∙ rw found refl

  pub Updated-update :
      (v : User) (db' : Db)
      → update_user (at app id) write db ≡ ok (v, db')
      → Updated env start app id input db (ok v) (directory db')
  unfolding update_user
  Updated-update v db' h = elim (Bool-cases (refuses_update (at app id) write db.users)) [
    | inl f ↦ absurd (ground (arith, there))
    | inr f ↦
        let own = refused_update in
        let same : write u ≡ v = ground (arith, there) in
        let rows : db'.users ≡ update_rows (at app id) write db.users = ground (arith, there) in
        let after : change app id write (directory db) ≡ directory db' = λ i x y.
          sym
            (ap (λ us. rows_directory us x y) rows
              ∙ changed_entry app id x y write db.users (λ v. refl) (λ v. refl) (λ v. refl))
            i in
        subst (λ v. Updated env start app id input db (ok v) (directory db')) same
          (subst (λ d. Updated env start app id input db (ok (write u)) d) after
            (changed u email metadata there is_email is_metadata (sym own ∙ f)))
  ]

  pub Updated-refused :
      (e : DbError)
      → update_user (at app id) write db ≡ err e
      → Updated env start app id input db (err (map_update_error e)) (directory db)
  unfolding update_user map_update_error
  Updated-refused e h = elim (Bool-cases (refuses_update (at app id) write db.users)) [
    | inl f ↦
        let own = refused_update in
        let clash : unique_violation ≡ e = ground (arith, there) in
        subst (λ x. Updated env start app id input db (err (map_update_error x)) (directory db))
          clash (taken u email there is_email (sym own ∙ f))
    | inr f ↦ absurd (ground (arith, there))
  ]

module _ (app id : Uuid) (db : Db) where
  pub Deleted-delete :
      (t : Time) (n : ℕ) (db' : Db)
      → delete_user (λ r. r.id == id && r.app_id == app && is_null r.deleted_at) t db ≡ ok (n, db')
      → (env : Env) (w : World) → w.db ≡ db'
      → Deleted app id
          (directory db)
          ((if n == 0 then raise not_found else pure tt) env w).0
          (directory ((if n == 0 then raise not_found else pure {E = Err} tt) env w).1.db)
  unfolding delete_user ◌>>=◌
  Deleted-delete t n db' h env w e =
      let count : affected (at app id) db.users ≡ n = ground arith in
      let rows : db'.users ≡ update_rows (at app id) (deleted t) db.users = ground arith in
      let users : w.db.users ≡ update_rows (at app id) (deleted t) db.users =
        ap (λ d. d.users) e ∙ rows in
      elim (Bool-cases (n == 0)) [
        | inl z ↦
            let nothing : affected (at app id) db.users ≡ 0 = ground arith in
            let same : directory db ≡ directory w.db =
              ap rows_directory
                (sym (users ∙ update_rows_none (at app id) (deleted t) db.users nothing)) in
            rw z (
              subst (λ d. Deleted app id (directory db) (err not_found) d) same
                (not_there (select_one-affected (at app id) db.users nothing)))
        | inr z ↦ elim (Option-cases (select_one (at app id) db.users)) [
          | inl o ↦
              let nothing = affected-select_one (at app id) db.users o in absurd (ground arith)
          | inr (u, o) ↦
              let after : remove app id (directory db) ≡ directory w.db = λ i x y.
                sym (ap (λ us. rows_directory us x y) users ∙ deleted_entry app id x y t db.users)
                  i in
              rw z (subst (λ d. Deleted app id (directory db) (ok tt) d) after (removed u o))
        ]
      ]
