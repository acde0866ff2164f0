-- ===== src/Access/Revocation.antt =====
-- What POST /access/check says once a user is deleted.
use open_aura.Prelude.{◌≡◌, sym, subst, Bool, true, ◌&&◌, ◌==◌, In→any, false≢true, ◌∙◌, arith}
use open_aura.Schema.{nil_uuid, Uuid, Db, User, is_null}
use open_aura.Prelude.{String, ◌||◌, str_eq, if◌then◌else◌}
use open_aura.Effect.Laws.{passed_guard, replied}
use open_aura.Effect.{Env, World, Result, ok, query, map_err, row, M, raise}
use open_aura.Effect.Yields.{Success}
use open_aura.Store.{DbError, Err, invalid_input, wrap_error, map_read_error}
use open_aura.Sql.{select_one}
use open_aura.Sql.Laws.{select_one_sound}
use open_aura.Access.{CheckInput}
use open_aura.Access.Repository.{allowed, check}
use open_aura.Access.Decision.{GrantPath, allowed_iff}
use open_aura.User.Lifecycle.{IsGone, soft_delete-IsGone}
use open_aura.User.Repository.{get_by_id, soft_delete}
use open_aura.Text.{trim_space}

-- Without an active user there is no path to a permission.
IsGone-no_path :
    (db : Db) (app user tenant : Uuid) (resource action : String)
    → IsGone app user db
    → ¬ GrantPath db app user tenant resource action
IsGone-no_path db app user tenant resource action gone (ra, m, (a, p)) =
    let (u, n, (i, d, x)) = a.subject in
    false≢true (sym gone ∙ In→any _ db.users u n (ground (arith, a.of_user)))

check-allowed :
    (env : Env) (w : World) (app : Uuid) (input : CheckInput)
    → (check app input env w).0 ≡ ok true
    → allowed
        (env.others w.tick w.db)
        app
        input.user_id
        input.tenant_id
        (trim_space input.resource)
        (trim_space input.action)
      ≡ true
unfolding check
check-allowed env w app input h =
    let resource = trim_space input.resource in
    let action = trim_space input.action in
    let read : Db → Result DbError Bool =
      λ db. ok (allowed db app input.user_id input.tenant_id resource action) in
    let statement : M Err Bool = map_err wrap_error (query read) in
    let no_ids = app == nil_uuid || input.user_id == nil_uuid || input.tenant_id == nil_uuid in
    let no_names = str_eq resource "" || str_eq action "" in
    let named : M Err Bool =
      if no_names then raise (invalid_input "resource and action are required") else statement in
    let e = invalid_input "user_id and tenant_id are required" in
    let f = invalid_input "resource and action are required" in
    let answered =
      replied wrap_error read true env w
        (passed_guard f statement env w true no_names (passed_guard e named env w true no_ids h)) in
    ground arith

IsGone-not_read :
    (app id : Uuid) (u : User) (env : Env) (w : World)
    → IsGone app id (env.others w.tick w.db)
    → ¬ ((get_by_id app id env w).0 ≡ ok u)
unfolding get_by_id
IsGone-not_read app id u env w gone h =
    let db = env.others w.tick w.db in
    let p : User → Bool = λ r. r.id == id && r.app_id == app && is_null r.deleted_at in
    let read = replied map_read_error (λ db. row (select_one p db.users)) u env w h in
    let (m, q) = select_one_sound p db.users u (ground arith) in
    false≢true (sym gone ∙ In→any p db.users u m q)

-- Once a user is deleted, no check of the app allows it anything and the user is not found, as long as
-- the database is not changed by other requests in between.
pub soft_delete-denies :
    (env : Env) (w w' : World) (app id : Uuid) (input : CheckInput)
    → soft_delete app id env w ≡ (ok tt, w')
    → input.user_id ≡ id
    → env.others w'.tick w'.db ≡ w'.db
    → (¬ ((check app input env w').0 ≡ ok true))
      × (¬ ((u : User) × ((get_by_id app id env w').0 ≡ ok u)))
unfolding get_by_id
soft_delete-denies env w w' app id input h i o =
    let gone = subst (Success (λ r. IsGone app id)) h ((soft_delete-IsGone app id).at env w) in
    (
      λ c.
          IsGone-no_path w'.db app id input.tenant_id (trim_space input.resource)
            (trim_space input.action) gone
            ((allowed_iff w'.db app id input.tenant_id (trim_space input.resource)
                (trim_space input.action)).0
              (rw (sym o, sym i) (check-allowed env w' app input c))),
      λ (u, r). IsGone-not_read app id u env w' (rw o gone) r,
    )
