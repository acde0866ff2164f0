-- ===== src/User/Lifecycle.antt =====
-- A user from its creation to its deletion, over internal/user and internal/access.
use open_aura.Prelude.{
  ◌≡◌, ◌≢◌, Bool, true, false, ◌&&◌, ◌==◌, none, some, List, [], ◌∷◌, ◌++◌, any, All, arith,
  if◌then◌else◌, ℕ, subst,
}
use open_aura.Schema.{Uuid, Db, User, is_null}
use open_aura.Schema.Constraints.{user_table}
use open_aura.Schema.Writes.{insert_user, delete_user}
use open_aura.Sql.{select_one, update_rows, refuses_insert}
use open_aura.Sql.Laws.{any-update_rows}
use open_aura.Sql.Unique.{accepted_row}
use open_aura.Store.{not_found, map_read_error}
use open_aura.Effect.{Env, World, ok, err, up, query, map_err}
use open_aura.Effect.Yields.{Yields, Success, yields_rules, silent_rules, Yields-bind_silent}
use open_aura.User.{CreateInput}
use open_aura.User.Repository.{create, get_by_id, soft_delete}

-- the user is the last row, of the app and active, and no other row has its id
abbrev IsStored : Uuid → User → Db → Type 0
IsStored app u db =
    (u.app_id ≡ app)
    × (u.deleted_at ≡ none)
    × ((rows : List User) × (db.users ≡ rows ++ u ∷ []) × All (λ s. (s.id == u.id) ≡ false) rows)

insert_user-IsStored :
    (app : Uuid) (r : User)
    → r.app_id ≡ app
    → r.deleted_at ≡ none
    → (db : Db) (a : User) (db' : Db) → insert_user r db ≡ ok (a, db')
    → IsStored app a db'
unfolding insert_user
insert_user-IsStored app r e d db a db' h =
    let fresh : refuses_insert r db.users ≡ false = ground arith in
    let same : r ≡ a = ground arith in
    let rows : db'.users ≡ db.users ++ r ∷ [] = ground arith in
    subst (λ x. IsStored app x db') same (e, d, (db.users, rows, (accepted_row r db.users fresh).0))

create-IsStored : (app : Uuid) (i : CreateInput) → Yields (IsStored app) (create app i)
unfolding create
create-IsStored app i = search (yields_rules, insert_user-IsStored) depth 16

-- The row at the end of a table is found by its id, when no other row has it.
module _ (app : Uuid) (u : User) where
  select_stored :
      (rows : List User)
      → All (λ s. (s.id == u.id) ≡ false) rows
      → (b : Bool) → (u.app_id == app && is_null u.deleted_at) ≡ b
      → select_one (λ r. r.id == u.id && r.app_id == app && is_null r.deleted_at) (rows ++ u ∷ [])
        ≡ (if b then some u else none)
  unfolding select_one
  select_stored [] k true h = ground arith
  select_stored [] k false h = ground arith
  select_stored (r ∷ rows) k b h = rw k.0 (select_stored rows k.1 b h)

-- A user that is created can be read in its app at once, when the next statement is answered before
-- other requests change the database; in any other app it is not found.
pub create_user-get_by_id :
    (env : Env) (w w' : World) (app : Uuid) (i : CreateInput) (u : User)
    → create app i env w ≡ (ok u, w')
    → env.fault w'.tick ≡ up
    → env.others w'.tick w'.db ≡ w'.db
    → ((get_by_id app u.id env w').0 ≡ ok u)
      × ((other : Uuid) → other ≢ app → (get_by_id other u.id env w').0 ≡ err not_found)
unfolding get_by_id map_err query map_read_error
create_user-get_by_id env w w' app i u h f o =
    let (a, d, (rows, e, fresh)) =
      subst (Success (IsStored app)) h ((create-IsStored app i).at env w) in
    (
      rw (f, o, e, select_stored app u rows fresh true (ground arith)),
      λ other n. rw (f, o, e, select_stored other u rows fresh false (ground arith)),
    )

-- No active user of the app has the id.
abbrev pub IsGone : Uuid → Uuid → Db → Type 0
IsGone app id db =
    any (λ (r : User). r.id == id && r.app_id == app && is_null r.deleted_at) db.users ≡ false

delete_user-IsGone :
    (app id : Uuid) (t : Uuid) (db : Db) (n : ℕ) (db' : Db)
    → delete_user (λ r. r.id == id && r.app_id == app && is_null r.deleted_at) t db ≡ ok (n, db')
    → IsGone app id db'
unfolding delete_user
delete_user-IsGone app id t db n db' h =
    let e : db'.users
        ≡ update_rows (λ r. r.id == id && r.app_id == app && is_null r.deleted_at)
            (λ r. record r { deleted_at = some t; updated_at = t }) db.users =
      ground arith in
    rw (
      e,
      any-update_rows (λ (r : User). r.id == id && r.app_id == app && is_null r.deleted_at)
          (λ r. r.id == id && r.app_id == app && is_null r.deleted_at)
          (λ r. record r { deleted_at = some t; updated_at = t }) db.users (λ r p. p)
          (λ r. ground arith),
    )

pub soft_delete-IsGone : (app id : Uuid) → Yields (λ r. IsGone app id) (soft_delete app id)
unfolding soft_delete
soft_delete-IsGone app id =
    search (yields_rules, silent_rules, Yields-bind_silent, delete_user-IsGone) depth 16
