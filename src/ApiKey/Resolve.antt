-- ===== src/ApiKey/Resolve.antt =====
-- What ResolveAppIDByKeyHash accepts, and what the middleware of the API lets through.
use open_aura.Prelude.{
  ◌≡◌, refl, sym, subst, ◌∙◌, In→any, Bool, true, ◌&&◌, Option, none, some, String, any, any_iff,
  Some, arith, ◌↔◌, str_eq, ◌==◌,
}
use text.Mathlib.TextEquality.{eq_iff}
use mathlib.Core.Option
use open_aura.Schema.{Uuid, Db, App, ApiKeyRow, is_null}
use open_aura.Schema.Constraints.{api_key_table}
use open_aura.Sql.{select_one}
use open_aura.Sql.Laws.{select_one_sound, any-select_one}
use open_aura.Sql.Unique.{NoClash, NoClash-same}
use open_aura.Effect.{Env, World, ok, up, query, map_err}
use open_aura.ApiKey.Repository.{resolve_app_id_by_key_hash}

-- An active API key with the hash, of the app, which is active too.
pub record Opens (db : Db) (hash : String) (app : Uuid) (k : ApiKeyRow) : Type 0 where
  pub hashed : k.key_hash ≡ hash
  pub active : k.revoked_at ≡ none
  pub of_app : k.app_id ≡ app
  pub owner : Some (λ (a : App). (a.id ≡ app) × (a.deleted_at ≡ none)) db.apps

abbrev opens : Db → String → ApiKeyRow → Bool
opens db hash k =
    str_eq k.key_hash hash
    && is_null k.revoked_at
    && any (λ a. a.id == k.app_id && is_null a.deleted_at) db.apps

opens_iff :
    (db : Db) (hash : String) (k : ApiKeyRow) → (opens db hash k ≡ true) ↔ Opens db hash k.app_id k
opens_iff db hash k =
    let owner =
      any_iff (λ a. a.id == k.app_id && is_null a.deleted_at)
        (λ (a : App). (a.id ≡ k.app_id) × (a.deleted_at ≡ none)) db.apps (λ a. ground arith) in
    (
      λ h. record {
        hashed = (eq_iff k.key_hash hash).0 (ground arith);
        active = ground arith;
        of_app = refl;
        owner = owner.0 (ground arith);
      },
      λ h. ground (arith, (eq_iff k.key_hash hash).1 h.hashed, owner.1 h.owner),
    )

-- The app of the key that the SELECT finds.
abbrev pub resolved_app : Db → String → Option Uuid
resolved_app db hash =
    Option.map (λ (k : ApiKeyRow). k.app_id) (select_one (opens db hash) db.api_keys)

module _ (db : Db) (hash : String) (app : Uuid) where
  found_row :
      (o : Option ApiKeyRow)
      → select_one (opens db hash) db.api_keys ≡ o
      → Option.map (λ k. k.app_id) o ≡ some app
      → Some (Opens db hash app) db.api_keys
  found_row none e h = cc
  found_row (some k) e h =
      let (m, q) = select_one_sound (opens db hash) db.api_keys k e in
      let a : k.app_id ≡ app = ground arith in
      (k, m, subst (λ x. Opens db hash x k) a ((opens_iff db hash k).0 q))

  pub resolved_app_sound : resolved_app db hash ≡ some app → Some (Opens db hash app) db.api_keys
  resolved_app_sound h = found_row (select_one (opens db hash) db.api_keys) refl h

  pub resolved_app_complete :
      NoClash api_key_table.clash db.api_keys
      → Some (Opens db hash app) db.api_keys
      → resolved_app db hash ≡ some app
  resolved_app_complete u (k, m, o) =
      let q : opens db hash k ≡ true =
        (opens_iff db hash k).1 (subst (λ x. Opens db hash x k) (sym o.of_app) o) in
      let (k', e) =
        any-select_one (opens db hash) db.api_keys (In→any (opens db hash) db.api_keys k m q) in
      let (m', q') = select_one_sound (opens db hash) db.api_keys k' e in
      let o' = (opens_iff db hash k').0 q' in
      let same : k' ≡ k =
        NoClash-same api_key_table.clash k' k db.api_keys u m' m
          ((eq_iff _ _).1 (o'.hashed ∙ sym o.hashed)) ((eq_iff _ _).1 (o.hashed ∙ sym o'.hashed)) in
      rw (e, same, o.of_app)

-- When the database answers and no two keys have one hash, a hash resolves to an app exactly when an
-- active key of the app has that hash and the app is active.
pub resolve_decides :
    (env : Env) (w : World) (hash : String) (app : Uuid)
    → env.fault w.tick ≡ up
    → NoClash api_key_table.clash (env.others w.tick w.db).api_keys
    → ((resolve_app_id_by_key_hash hash env w).0 ≡ ok app)
      ↔ Some (Opens (env.others w.tick w.db) hash app) (env.others w.tick w.db).api_keys
unfolding resolve_app_id_by_key_hash map_err query
resolve_decides env w hash app f u =
    let db = env.others w.tick w.db in
    (
      λ h. resolved_app_sound db hash app (ground arith),
      λ h. ground (arith, resolved_app_complete db hash app u h),
    )
