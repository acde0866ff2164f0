-- ===== src/Start/Bootstrap.antt =====
-- The first admin key, from the settings of main to the middleware of the admin API.
use open_aura.Prelude.{◌≡◌, refl, sym, subst, ◌∙◌, String, some, false, arith, str_eq, ap}
use open_aura.Effect.{Env, World, ok, up, map_err, pure}
use open_aura.Effect.Keeps.{StableUnder}
use open_aura.Effect.Laws.{bind_elim, map_err_inv, lift_inv, pure_inv, skipped}
use open_aura.Httpx.{Request, Handler}
use open_aura.Auth.{resolve_admin_key, raw_api_key, with_admin, hash_api_key}
use open_aura.ApiKey.Gate.{looked_up}
use open_aura.AdminApiKey.Gate.{HasAdminKey, resolve_admin_key_admits}
use open_aura.AdminApiKey.Bootstrap.{NotRevoked, ensure_bootstrap_key-HasAdminKey}
use open_aura.AdminApiKey.Repository.{ensure_bootstrap_key, admin_key_exists}
use open_aura.Config.{Config}
use open_aura.Start.{Surroundings, config, bootstrap, connect, ensure_key, start}

module _ (s : Surroundings) (env : Env) where
  connected : (url : String) (w w' : World) → connect s url env w ≡ (ok tt, w') → w'.db ≡ w.db
  unfolding connect
  connected url w w' h = ground arith

  ensure_key_inv :
      (raw : String) (w w' : World)
      → str_eq raw "" ≡ false
      → ensure_key raw env w ≡ (ok tt, w')
      → ensure_bootstrap_key raw "bootstrap" env w ≡ (ok tt, w')
  unfolding ensure_key
  ensure_key_inv raw w w' n h =
      map_err_inv bootstrap (ensure_bootstrap_key raw "bootstrap") env w w' tt (
        sym (
          skipped (pure tt) (map_err bootstrap (ensure_bootstrap_key raw "bootstrap")) env w
            (str_eq raw "") n)
        ∙ h)

  start-HasAdminKey :
      (cfg : Config) (w w' : World) (hash : String)
      → hash_api_key env cfg.bootstrap_admin_api_key ≡ hash
      → str_eq cfg.bootstrap_admin_api_key "" ≡ false
      → StableUnder (λ db. NotRevoked db hash) env
      → NotRevoked w.db hash
      → start s env w ≡ (ok cfg, w')
      → HasAdminKey w'.db hash
  unfolding start
  start-HasAdminKey cfg w w' hash same given st n h = bind_elim _ _ env w w' cfg h λ cfg1 w1 hl h1.
      bind_elim _ _ env w1 w' cfg h1 λ u w2 hc h2. bind_elim _ _ env w2 w' cfg h2 λ u' w3 he h3.
        ended cfg1 w1 w2 w3
          (ap (λ x. x.db) (lift_inv _ env w w1 cfg1 (map_err_inv config _ env w w1 cfg1 hl)).1) hc
          he (pure_inv cfg1 env w3 w' cfg h3)
    where
      ended :
          (cfg1 : Config) (w1 w2 w3 : World)
          → w.db ≡ w1.db
          → connect s cfg1.database_url env w1 ≡ (ok tt, w2)
          → ensure_key cfg1.bootstrap_admin_api_key env w2 ≡ (ok tt, w3)
          → (cfg1 ≡ cfg) × (w3 ≡ w')
          → HasAdminKey w'.db hash
      ended cfg1 w1 w2 w3 e hc he (c, l) =
          let db_same : w2.db ≡ w.db = connected cfg1.database_url w1 w2 hc ∙ sym e in
          let there : NotRevoked w2.db hash = subst (λ d. NotRevoked d hash) (sym db_same) n in
          let key = cfg.bootstrap_admin_api_key in
          let ran : ensure_key key env w2 ≡ (ok tt, w3) =
            subst (λ x. ensure_key x.bootstrap_admin_api_key env w2 ≡ (ok tt, w3)) c he in
          subst (λ x. HasAdminKey x.db hash) l
            (subst (HasAdminKey w3.db) same (
              ensure_bootstrap_key-HasAdminKey env key "bootstrap" w2 w3
                (subst (NotRevoked (env.others w2.tick w2.db)) (sym same) (st w2.tick w2.db there))
                (ensure_key_inv key w2 w3 given ran)))

-- Once main has started with a bootstrap key, a request that sends this key reaches the admin API, if
-- the database answers, no key with the hash of it was revoked, and other writers revoke none.
pub start-resolve_admin_key :
    (s : Surroundings) (cfg : Config) (env : Env) (w w' : World) {A : Type 0}
    (next : Request → Handler A) (r : Request)
    → start s env w ≡ (ok cfg, w')
    → str_eq cfg.bootstrap_admin_api_key "" ≡ false
    → NotRevoked w.db (hash_api_key env cfg.bootstrap_admin_api_key)
    → StableUnder (λ db. NotRevoked db (hash_api_key env cfg.bootstrap_admin_api_key)) env
    → StableUnder (λ db. HasAdminKey db (hash_api_key env cfg.bootstrap_admin_api_key)) env
    → raw_api_key env r ≡ some cfg.bootstrap_admin_api_key
    → env.fault w'.tick ≡ up
    → resolve_admin_key admin_key_exists next r env w' ≡ next (with_admin r) env (looked_up env w')
start-resolve_admin_key s cfg env w w' next r h given n st kept sent f =
    resolve_admin_key_admits next r env w' cfg.bootstrap_admin_api_key sent f (
      kept w'.tick w'.db (
        start-HasAdminKey s env cfg w w' (hash_api_key env cfg.bootstrap_admin_api_key) refl given
          st n h))
