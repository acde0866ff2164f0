-- ===== src/User/Rows.antt =====
-- What the unique index of users and the WHERE of their statements find among the rows.
use open_aura.Prelude.{
  ◌≡◌, refl, none, some, String, List, [], ◌∷◌, Bool, false, ◌&&◌, any, ◌==◌, ◌||◌, not, true,
  str_eq, arith, inl, inr, Bool-cases,
}
use open_aura.Json.{Fields}
use open_aura.Schema.{Uuid, Time, Db, User, is_null}
use open_aura.Schema.Constraints.{user_table, affected}
use open_aura.Sql.{select_one, refuses_insert}
use open_aura.User.Promise.{is_taken_beside, rewritten}
use open_aura.User.Directory.{at, rows_directory}

-- no row has the id, so no user has
pub no_id :
    (r : User) (rows : List User)
    → refuses_insert r rows ≡ false
    → any (λ s. s.id == r.id) rows ≡ false
unfolding refuses_insert
no_id r [] h = refl
no_id r (s ∷ rows) h = ground (arith, no_id r rows)

pub no_user :
    (app id : Uuid) (rows : List User)
    → any (λ s. s.id == id) rows ≡ false
    → rows_directory rows app id ≡ none
unfolding select_one
no_user app id [] h = refl
no_user app id (s ∷ rows) h = ground (arith, no_user app id rows)

pub select_one-affected :
    (p : User → Bool) (rows : List User) → affected p rows ≡ 0 → select_one p rows ≡ none
unfolding select_one
select_one-affected p [] h = refl
select_one-affected p (r ∷ rows) h = elim (Bool-cases (p r)) [
  | inl e ↦ absurd (ground arith)
  | inr e ↦ rw e (select_one-affected p rows (rw e at h))
]

pub affected-select_one :
    (p : User → Bool) (rows : List User) → select_one p rows ≡ none → affected p rows ≡ 0
unfolding select_one
affected-select_one p [] h = refl
affected-select_one p (r ∷ rows) h = elim (Bool-cases (p r)) [
  | inl e ↦ absurd (ground arith)
  | inr e ↦ rw e (affected-select_one p rows (rw e at h))
]

-- a row that is refused has a key or an email that is there
pub refused_key :
    (u : User) (rows : List User)
    → u.deleted_at ≡ none
    → refuses_insert u rows
      ≡ any (λ (s : User). s.id == u.id) rows
        || any
            (λ (s : User). is_null s.deleted_at && u.app_id == s.app_id && str_eq u.email s.email)
            rows
unfolding refuses_insert
refused_key u [] d = refl
refused_key u (s ∷ rows) d = ground (arith, refused_key u rows d)

pub clash_beside :
    (app id : Uuid) (email : String) (metadata : Fields) (t : Time) (r : User) (rows : List User)
    → at app id r ≡ true
    → any
        (λ (s : User). not (s.id == r.id) && user_table.clash (rewritten email metadata t r) s)
        rows
      ≡ any
          (λ (s : User).
            not (s.id == id) && is_null s.deleted_at && app == s.app_id && str_eq email s.email)
          rows
clash_beside app id email metadata t r [] h = refl
clash_beside app id email metadata t r (s ∷ rows) h =
    ground (arith, clash_beside app id email metadata t r rows h)

-- the unique index refuses the new email when another user has it
pub refused_beside :
    (app id : Uuid) (email : String) (metadata : Fields) (t : Time) (db : Db) (rows : List User)
    → any
        (λ (r : User).
          at app id r
          && any
              (λ (s : User).
                not (s.id == r.id) && user_table.clash (rewritten email metadata t r) s)
              db.users)
        rows
      ≡ any (at app id) rows && is_taken_beside app id email db
refused_beside app id email metadata t db [] = refl
refused_beside app id email metadata t db (r ∷ rows) = elim (Bool-cases (at app id r)) [
  | inl e ↦ ground (
    arith,
    refused_beside app id email metadata t db rows,
    clash_beside app id email metadata t r db.users e,
  )
  | inr e ↦ ground (arith, refused_beside app id email metadata t db rows)
]

pub any-select_one :
    (p : User → Bool) (rows : List User) (u : User) → select_one p rows ≡ some u → any p rows ≡ true
unfolding select_one
any-select_one p [] u h = absurd (ground arith)
any-select_one p (r ∷ rows) u h = elim (Bool-cases (p r)) [
  | inl e ↦ ground arith
  | inr e ↦ let rest = any-select_one p rows u (rw e at h) in ground arith
]
