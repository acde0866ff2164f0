-- ===== src/AdminApiKey/Bootstrap.antt =====
-- The key that the server makes sure of: EnsureBootstrapKey of internal/adminapikey/repository.go.
use text.Mathlib.TextEquality.{eq_iff}
use open_aura.Prelude.{
  ◌≡◌, refl, sym, subst, ◌∙◌, ap, String, Option, none, some, In, In-last, All, All-In, Bool, true,
  false, inl, inr, Bool-cases, arith, str_eq, if◌then◌else◌, [], ◌∷◌, ◌++◌,
}
use mathlib.Core.Option
use open_aura.Schema.{Db, AdminApiKeyRow}
use open_aura.Schema.Writes.{insert_admin_api_key}
use open_aura.Schema.Constraints.{admin_api_key_table}
use open_aura.Sql.{select_one, refuses_insert}
use open_aura.Sql.Laws.{select_one_sound}
use open_aura.Store.{map_write_error, DbError}
use open_aura.Effect
use open_aura.Effect.{
  Env, World, Result, ok, err, Fault, up, refused, reply_lost, M, pure, query, exec, map_err, row,
  ◌>>=◌, new_uuid, asks, ◌>>◌,
}
use open_aura.Effect.Laws.{bind_elim, map_err_inv, exec_inv, pure_inv, bind_asks}
use open_aura.Auth.{hash_api_key}
use open_aura.AdminApiKey.{AdminApiKey}
use open_aura.AdminApiKey.Gate.{HasAdminKey}
use open_aura.AdminApiKey.Repository.{ensure_bootstrap_key, insert_with_hash, row_exists, came_back}

abbrev has_hash : String → AdminApiKeyRow → Bool
has_hash hash k = str_eq k.key_hash hash

-- No key with the hash was revoked.
abbrev pub NotRevoked : Db → String → Type 0
NotRevoked db hash =
    All (λ (k : AdminApiKeyRow). k.key_hash ≡ hash → k.revoked_at ≡ none) db.admin_api_keys

inserted-HasAdminKey :
    (r k : AdminApiKeyRow) (db db' : Db)
    → r.revoked_at ≡ none
    → insert_admin_api_key r db ≡ ok (k, db')
    → HasAdminKey db' r.key_hash
unfolding insert_admin_api_key
inserted-HasAdminKey r k db db' a h = elim (Bool-cases (refuses_insert r db.admin_api_keys)) [
  | inl e ↦ absurd (ground arith)
  | inr e ↦
      let rows : db'.admin_api_keys ≡ db.admin_api_keys ++ r ∷ [] = ground arith in
      (r, subst (In r) (sym rows) (In-last r db.admin_api_keys), (refl, a))
]

module _ (env : Env) where
  insert_with_hash-HasAdminKey :
      (raw hash : String) (name : Option String) (k : AdminApiKey) (w w' : World)
      → insert_with_hash raw hash name env w ≡ (ok k, w')
      → HasAdminKey w'.db hash
  unfolding insert_with_hash
  insert_with_hash-HasAdminKey raw hash name k w w' h = bind_elim _ _ env w w' k h λ id w1 hi h1.
      bind_elim _ _ env w1 w' k h1 λ t w2 ht h2. bind_elim _ _ env w2 w' k h2 λ row w3 he h3.
        let (p, same) = pure_inv _ env w3 w' k h3 in
        subst (λ x. HasAdminKey x.db hash) same
          (inserted-HasAdminKey
            (record { id = id; key_hash = hash; name = name; created_at = t; revoked_at = none })
            row (env.others w2.tick w2.db) w3.db refl
            (exec_inv _ env w2 w3 row (map_err_inv map_write_error _ env w2 w3 row he)))

  abbrev key_look_up : String → M DbError (Unit {0})
  key_look_up hash = query (λ db.
      row (Option.map (λ _. tt) (select_one (λ k. str_eq k.key_hash hash) db.admin_api_keys)))

  replied_row :
      (flt : Fault) (o : Option AdminApiKeyRow)
      → came_back (Effect.reply flt (row (Option.map (λ _. tt) o))) ≡ ok true
      → (k : AdminApiKeyRow) × (o ≡ some k)
  replied_row up (some k) h = (k, refl)
  replied_row up none h = absurd (ground arith)
  replied_row refused o h = absurd (ground arith)
  replied_row reply_lost o h = absurd (ground arith)

  -- the hash was found, so a row has it
  found_row :
      (hash : String) (w w' : World)
      → NotRevoked (env.others w.tick w.db) hash
      → row_exists (key_look_up hash) env w ≡ (ok true, w')
      → HasAdminKey w'.db hash
  unfolding row_exists query
  found_row hash w w' n h =
      let db = env.others w.tick w.db in
      let (k, e) =
        replied_row (env.fault w.tick) (select_one (has_hash hash) db.admin_api_keys)
          (ap (λ x. x.0) h) in
      let (m, q) = select_one_sound (has_hash hash) db.admin_api_keys k e in
      let hashed = (eq_iff k.key_hash hash).0 q in
      subst (λ d. HasAdminKey d hash) (ap (λ x. x.1.db) h)
        (
          k,
          m,
          (
            hashed,
            All-In (λ x. x.key_hash ≡ hash → x.revoked_at ≡ none) db.admin_api_keys k n m hashed,
          ),
        )

  -- After EnsureBootstrapKey has succeeded there is an active admin key with the hash of the key,
  -- unless one with that hash was revoked before.
  pub ensure_bootstrap_key-HasAdminKey :
      (raw name : String) (w w' : World)
      → NotRevoked (env.others w.tick w.db) (hash_api_key env raw)
      → ensure_bootstrap_key raw name env w ≡ (ok tt, w')
      → HasAdminKey w'.db (hash_api_key env raw)
  unfolding ensure_bootstrap_key
  ensure_bootstrap_key-HasAdminKey raw name w w' n h =
      bind_elim _ _ env w w' tt (sym (bind_asks _ _ env w) ∙ h)
        λ found w1 hf h1. by_found found w1 hf h1
    where
      by_found :
          (found : Bool) (w1 : World)
          → row_exists (key_look_up (hash_api_key env raw)) env w ≡ (ok found, w1)
          → (if found then pure tt else (do
            insert_with_hash raw (hash_api_key env raw) (if str_eq name "" then none else some name)
            pure tt))
              env w1
            ≡ (ok tt, w')
          → HasAdminKey w'.db (hash_api_key env raw)
      by_found true w1 hf h1 =
          subst (λ x. HasAdminKey x.db (hash_api_key env raw)) (pure_inv tt env w1 w' tt h1).1
            (found_row (hash_api_key env raw) w w1 n hf)
      by_found false w1 hf h1 = bind_elim _ _ env w1 w' tt h1 λ k w2 hk h2.
          subst (λ x. HasAdminKey x.db (hash_api_key env raw)) (pure_inv tt env w2 w' tt h2).1
            (insert_with_hash-HasAdminKey raw (hash_api_key env raw) _ k w1 w2 hk)
