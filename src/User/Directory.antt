-- ===== src/User/Directory.antt =====
-- The users as a map from the app and the id to the active user, and what the statements of
-- internal/user/repository.go do to it.
use open_aura.Prelude.{
  ◌≡◌, Option, none, some, List, [], ◌∷◌, ◌++◌, Bool, false, ◌&&◌, any, ◌==◌, arith, if◌then◌else◌,
}
use mathlib.Core.Option
use open_aura.Schema.{Uuid, Time, Db, User, is_null}
use open_aura.Sql.{select_one, update_rows}

abbrev pub Directory : Type 0
Directory = Uuid → Uuid → Option User

abbrev pub put : User → Directory → Directory
put u d app id = if app == u.app_id && id == u.id then some u else d app id

abbrev pub remove : Uuid → Uuid → Directory → Directory
remove a i d app id = if app == a && id == i then none else d app id

abbrev pub change : Uuid → Uuid → (User → User) → Directory → Directory
change a i f d app id = if app == a && id == i then Option.map f (d app id) else d app id

-- the active user of the app with the id
abbrev pub at : Uuid → Uuid → User → Bool
at app id r = r.id == id && r.app_id == app && is_null r.deleted_at

abbrev pub rows_directory : List User → Directory
rows_directory rows app id = select_one (at app id) rows

-- the map that the table of users stands for
abbrev pub directory : Db → Directory
directory db = rows_directory db.users

-- the user as SoftDelete leaves it
abbrev pub deleted : Time → User → User
deleted t r = record r { deleted_at = some t; updated_at = t }

pub deleted_entry :
    (a i app id : Uuid) (t : Time) (rows : List User)
    → rows_directory (update_rows (at a i) (deleted t) rows) app id
      ≡ remove a i (rows_directory rows) app id
unfolding select_one update_rows
deleted_entry a i app id t [] = ground arith
deleted_entry a i app id t (r ∷ rows) = ground (arith, deleted_entry a i app id t rows)

pub changed_entry :
    (a i app id : Uuid) (f : User → User) (rows : List User)
    → ((r : User) → (f r).id ≡ r.id)
    → ((r : User) → (f r).app_id ≡ r.app_id)
    → ((r : User) → (f r).deleted_at ≡ r.deleted_at)
    → rows_directory (update_rows (at a i) f rows) app id
      ≡ change a i f (rows_directory rows) app id
unfolding select_one update_rows
changed_entry a i app id f [] k l m = ground arith
changed_entry a i app id f (r ∷ rows) k l m =
    ground (arith, k r, l r, m r, changed_entry a i app id f rows k l m)

pub put_entry :
    (u : User) (app id : Uuid) (rows : List User)
    → u.deleted_at ≡ none
    → any (λ s. s.id == u.id) rows ≡ false
    → rows_directory (rows ++ u ∷ []) app id ≡ put u (rows_directory rows) app id
unfolding select_one
put_entry u app id [] a n = ground arith
put_entry u app id (r ∷ rows) a n = ground (arith, put_entry u app id rows a)
