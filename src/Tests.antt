-- ===== src/Tests.antt =====
-- The code on concrete inputs, and the theorems applied to them.
mod Service
mod Directory
mod Login
mod Apple
use open_aura.Prelude.{
  ◌≡◌, ◌≢◌, refl, arith, true, false, Bool, none, some, ◌↔◌, str_eq, List, [], ◌∷◌, inl, ◌⊎◌, Some,
  ◌==◌, ◌&&◌, ◌≤◌, pos, negsuc, pos_part,
}
use open_aura.Json.{absent, end}
use open_aura.Text.{trim_space, to_lower, contains}
use open_aura.Effect
use open_aura.Effect.{ok, ◌>>=◌, map_err, query, exec, new_uuid}
use open_aura.Schema.Writes.{insert_user, delete_user}
use open_aura.Sql.{refuses_insert, update_rows, select_page, order_newest, insert_newest}
use open_aura.Access.Repository.{check}
use open_aura.Access.Decision.{GrantPath, check_decides}
use open_aura.System.Requests.{create_app, delete_app, create_api_key, delete_tenant, run_all}
use open_aura.System.Consistency.{IsConsistent}
use open_aura.System.Consistency.Reached.{run_all-IsConsistent}
use open_aura.System.Isolation.{view}
use open_aura.System.Isolation.Reached.{run_all-isolates}
use open_aura.System.UniqueKeys.{HasUniqueKeys, run_all-HasUniqueKeys}
use open_aura.System.Requests.{Write}
use open_aura.Schema.{Uuid, User, is_null}
use open_aura.Effect.{World, Result, err}
use open_aura.Store.{not_found}
use open_aura.Httpx.{clamp_pagination, require_metadata, normalize_metadata, Handler, Request}
use open_aura.Httpx.Paging.{clamp_pagination-bounds}
use open_aura.Auth.{resolve_app_key, with_app_id, raw_api_key}
use open_aura.ApiKey.Repository.{resolve_app_id_by_key_hash}
use open_aura.ApiKey.Resolve.{Opens, resolve_decides}
use open_aura.ApiKey.Gate.{
  Admitted, TurnedAway, looked_up, resolve_app_key_guards, resolve_app_key_admits,
}
use open_aura.User.Repository as Users
use open_aura.User.Lifecycle.{create_user-get_by_id}
use open_aura.User.Creation.{expected_reply, created_user, create_user_decides}
use open_aura.Effect.{in_tx}
use open_aura.Effect.Atomic.{IsAtomic}
use open_aura.UserAuth.Handler.{register_user, internal_error}
use open_aura.UserAuth.Registration.{HasUser, HasPassword, register_user-IsAtomic}
use open_aura.User.Listing.{list_users-IsPage}
use open_aura.Access.Revocation.{soft_delete-denies}
use open_aura.Sql.Pages.{IsPage}
use open_aura.User.Handler as UserHandler
use open_aura.Examples.{
  quiet, sample_db, sample_world, sample_check, sample_request, sample_user, sample_key, sample_app,
}

trim_space_test : trim_space "  ada@x \n" ≡ "ada@x"
unfolding trim_space
trim_space_test = refl

to_lower_test : to_lower (λ c. c) "Ada@X.ORG" ≡ "ada@x.org"
unfolding to_lower
to_lower_test = refl

doc_given : str_eq (trim_space " doc ") "" ≡ false
unfolding trim_space
doc_given = refl

read_given : str_eq (trim_space "read") "" ≡ false
unfolding trim_space
read_given = refl

check_decides_example :
    (b : Bool) × ((check 1 sample_check quiet sample_world).0 ≡ ok b)
    × ((b ≡ true) ↔ GrantPath sample_db 1 3 2 (trim_space " doc ") (trim_space "read"))
check_decides_example =
    check_decides quiet sample_world 1 sample_check (ground arith) (ground arith) (ground arith)
      doc_given read_given refl

sample-IsConsistent : IsConsistent sample_db
sample-IsConsistent = record {
  assignments = ((1, refl, refl, refl), tt);
  permissions = ((1, refl, refl, refl), tt);
}

abbrev sample_writes : List Write
sample_writes =
    delete_app 1
    ∷ create_app (record { name = "x"; metadata = absent })
    ∷ create_api_key 1 (record { name = none; metadata = absent })
    ∷ []

run_all-IsConsistent_example : IsConsistent (run_all sample_writes quiet sample_world).db
run_all-IsConsistent_example =
    run_all-IsConsistent sample_writes quiet sample_world (λ n db h. h) sample-IsConsistent

sample-HasUniqueKeys : HasUniqueKeys sample_db
sample-HasUniqueKeys = record { app_keys = (tt, tt); admin_keys = tt; identities = tt }

run_all-HasUniqueKeys_example : HasUniqueKeys (run_all sample_writes quiet sample_world).db
run_all-HasUniqueKeys_example =
    run_all-HasUniqueKeys sample_writes quiet sample_world (λ n db h. h) sample-HasUniqueKeys

sample_key-Opens : Some (Opens sample_db "oa_app_1" 1) sample_db.api_keys
sample_key-Opens = (
  sample_key,
  inl refl,
  record {
    hashed = refl;
    active = refl;
    of_app = refl;
    owner = (sample_app, inl refl, (refl, refl));
  },
)

resolve_decides_example :
    ((resolve_app_id_by_key_hash "oa_app_1" quiet sample_world).0 ≡ ok 1)
    ↔ Some (Opens sample_db "oa_app_1" 1) sample_db.api_keys
resolve_decides_example = resolve_decides quiet sample_world "oa_app_1" 1 refl (tt, tt)

abbrev get_user : Request → Handler User
get_user = UserHandler.get

resolve_app_key_guards_example :
    Admitted get_user sample_request quiet sample_world
    ⊎ TurnedAway get_user sample_request quiet sample_world
resolve_app_key_guards_example = resolve_app_key_guards get_user sample_request quiet sample_world

sample_raw_key : raw_api_key quiet sample_request ≡ some "oa_app_1"
unfolding raw_api_key trim_space
sample_raw_key = refl

resolve_app_key_admits_example :
    resolve_app_key resolve_app_id_by_key_hash get_user sample_request quiet sample_world
    ≡ get_user (with_app_id sample_request "1") quiet (looked_up quiet sample_world)
resolve_app_key_admits_example =
    resolve_app_key_admits get_user sample_request quiet sample_world "oa_app_1" 1 sample_raw_key
      refl (tt, tt) sample_key-Opens

abbrev new_user : User
new_user = record {
  id = 101;
  app_id = 1;
  email = "bob@x";
  metadata = end;
  created_at = 0;
  updated_at = 0;
  deleted_at = none;
}

abbrev after_create : World
after_create = record sample_world {
  db = record sample_db { users = sample_user ∷ new_user ∷ [] };
  tick = 3;
}

sample_create :
    Users.create 1 (record { email = " Bob@x"; metadata = absent }) quiet sample_world
    ≡ (ok new_user, after_create)
unfolding Users.create Users.normalize_email trim_space to_lower contains ◌>>=◌ map_err query exec
    Effect.now new_uuid require_metadata normalize_metadata insert_user refuses_insert
sample_create = refl

create_user-get_by_id_example :
    ((Users.get_by_id 1 101 quiet after_create).0 ≡ ok new_user)
    × ((other : Uuid)
        → other ≢ 1
        → (Users.get_by_id other 101 quiet after_create).0 ≡ err not_found)
create_user-get_by_id_example =
    create_user-get_by_id quiet sample_world after_create 1
      (record { email = " Bob@x"; metadata = absent }) new_user sample_create refl refl

abbrev after_delete : World
after_delete = record sample_world {
  db = record sample_db { users = record sample_user { deleted_at = some 0; updated_at = 0 } ∷ [] };
  tick = 2;
}

sample_delete : Users.soft_delete 1 3 quiet sample_world ≡ (ok tt, after_delete)
unfolding Users.soft_delete ◌>>=◌ map_err exec Effect.now delete_user update_rows
sample_delete = refl

soft_delete-denies_example :
    (¬ ((check 1 sample_check quiet after_delete).0 ≡ ok true))
    × (¬ ((u : User) × ((Users.get_by_id 1 3 quiet after_delete).0 ≡ ok u)))
soft_delete-denies_example =
    soft_delete-denies quiet sample_world after_delete 1 3 sample_check sample_delete refl refl

clamp_pagination-bounds_example :
    (1 ≤ pos_part (clamp_pagination (pos 500) (negsuc 3)).0)
    × (pos_part (clamp_pagination (pos 500) (negsuc 3)).0 ≤ 100)
    × (clamp_pagination (pos 500) (negsuc 3)
        ≡ (pos (pos_part (clamp_pagination (pos 500) (negsuc 3)).0), pos 0))
clamp_pagination-bounds_example = clamp_pagination-bounds (pos 500) (negsuc 3)

sample_list :
    (Users.list (record { app_id = 1; limit = pos 0; offset = pos 0 }) quiet sample_world).0
    ≡ ok (sample_user ∷ [])
unfolding Users.list map_err query clamp_pagination select_page order_newest insert_newest
sample_list = refl

list_users-IsPage_example :
    IsPage
      (λ (r : User). r.created_at)
      (λ r. r.app_id == 1 && is_null r.deleted_at)
      100
      (sample_user ∷ [])
list_users-IsPage_example =
    list_users-IsPage quiet sample_world (record { app_id = 1; limit = pos 0; offset = pos 0 })
      (sample_user ∷ []) sample_list

sample_normalized : Users.normalize_email " Bob@x" quiet sample_world ≡ (ok "bob@x", sample_world)
unfolding Users.normalize_email trim_space to_lower contains ◌>>=◌
sample_normalized = refl

normalized_absent : normalize_metadata absent ≡ some end
unfolding normalize_metadata
normalized_absent = refl

create_user_decides_example :
    (Users.create 1 (record { email = " Bob@x"; metadata = absent }) quiet sample_world).0
    ≡ expected_reply
        (created_user quiet sample_world 1
          (record { email = " Bob@x"; metadata = absent })
          "bob@x"
          end
          101)
        sample_db
create_user_decides_example =
    create_user_decides quiet sample_world 1 (record { email = " Bob@x"; metadata = absent })
      "bob@x" end 101 (ground arith) sample_normalized normalized_absent refl refl refl

register_user-IsAtomic_example :
    IsAtomic
      (λ u db. HasUser 1 u db × HasPassword 1 u db)
      sample_db
      (in_tx internal_error (register_user 1 "bob@x" "hash" absent) quiet sample_world)
register_user-IsAtomic_example = register_user-IsAtomic 1 "bob@x" "hash" absent quiet sample_world

abbrev writes_of_other_app : List Write
writes_of_other_app =
    create_api_key 2 (record { name = none; metadata = absent }) ∷ delete_tenant 2 2 ∷ []

run_all-isolates_example :
    view 1 (run_all writes_of_other_app quiet sample_world).db ≡ view 1 sample_db
run_all-isolates_example =
    run_all-isolates 1 writes_of_other_app quiet sample_world (ground arith, (ground arith, tt))
      (λ n db h. h)
