-- ===== src/User/Listing.antt =====
-- GET /users: List of internal/user.
use open_aura.Prelude.{◌≡◌, subst, ◌==◌, ◌&&◌, List, pos_part, arith}
use open_aura.Schema.{User, Db, is_null}
use open_aura.Store.{wrap_error, DbError}
use open_aura.Sql.{select_page}
use open_aura.Sql.Pages.{IsPage, select_page-IsPage}
use open_aura.Effect.{Env, World, Result, ok}
use open_aura.Effect.Laws.{replied}
use open_aura.Httpx.{clamp_pagination}
use open_aura.Httpx.Paging.{clamp_pagination-bounds}
use open_aura.User.{ListFilter}
use open_aura.User.Repository.{list}

-- A list of users that is returned has at most 100 of them, every one an active user of the app that
-- asks, the newest first, for any limit and offset.
pub list_users-IsPage :
    (env : Env) (w : World) (f : ListFilter) (rows : List User)
    → (list f env w).0 ≡ ok rows
    → IsPage
        (λ (r : User). r.created_at)
        (λ r. r.app_id == f.app_id && is_null r.deleted_at)
        100
        rows
unfolding list
list_users-IsPage env w f rows h =
    let (limit, offset) = clamp_pagination f.limit f.offset in
    let select : Db → Result DbError (List User) = λ db. ok (
      select_page (λ r. r.app_id == f.app_id && is_null r.deleted_at) (λ r. r.created_at)
        (pos_part limit) (pos_part offset) db.users) in
    let read = replied wrap_error select rows env w h in
    let e : select_page (λ r. r.app_id == f.app_id && is_null r.deleted_at) (λ r. r.created_at)
          (pos_part limit) (pos_part offset) (env.others w.tick w.db).users
        ≡ rows =
      ground arith in
    let page =
      select_page-IsPage _ _ (pos_part limit) (pos_part offset) (env.others w.tick w.db).users in
    subst
      (IsPage (λ (r : User). r.created_at) (λ r. r.app_id == f.app_id && is_null r.deleted_at) 100)
      e
      (record {
        short = omega (arith, page.short, (clamp_pagination-bounds f.limit f.offset).1);
        wanted = page.wanted;
        newest_first = page.newest_first;
      })
