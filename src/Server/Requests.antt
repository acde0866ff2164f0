-- ===== src/Server/Requests.antt =====
-- What a request to New of internal/httpserver/server.go keeps of the database.
use open_aura.Prelude.{
  ◌≡◌, refl, sym, subst, some, String, Some, Bool, true, false, ◌&&◌, ◌⊎◌, inl, inr, arith,
  Bool-cases, str_eq, if◌then◌else◌,
}
use open_aura.Schema.{Db, Uuid}
use open_aura.Effect.{Env, World, Result, err, step, ◌>>=◌}
use open_aura.Effect.Keeps.{StableUnder}
use open_aura.Httpx.{Request, Handler, serve}
use open_aura.Auth.{raw_api_key, with_app_id, with_admin, hash_api_key, app_id}
use open_aura.ApiKey.Resolve.{Opens}
use open_aura.ApiKey.Gate.{looked_up, resolve_app_key_guards}
use open_aura.AdminApiKey.Gate.{resolve_admin_key_guards}
use open_aura.System.Statements.{StatementsKeep}
use open_aura.Server.{Incoming, Output, Parts}
use open_aura.Server.Mux.{serve_mux, takes}
use open_aura.Server.Routes.{admin_routes, app_routes}
use open_aura.Server.Gate.{
  request_of, app_api, admin_api, redirect, versioned, serve_http, require_api_version, is_below,
  is_exactly, with_logging, new,
}
use open_aura.Server.InApp.{ActsIn}
use open_aura.Server.Served.{app_mux-KeepsIn, admin_mux-Keeps}
use open_aura.Server.Handlers.SignIn.{VerifierKeeps}

-- Every app that the key of the request opens satisfies `A`.
abbrev pub KeyOpensIn : (Uuid → Type 0) → Env → World → Incoming → Type 0
KeyOpensIn A env w i =
    (raw : String) (app : Uuid)
    → raw_api_key env (request_of i) ≡ some raw
    → Some (Opens (env.others w.tick w.db) (hash_api_key env raw) app)
        (env.others w.tick w.db).api_keys
    → A app

-- The middleware acts in an app that satisfies `A`.
abbrev pub KeyActsIn : (Uuid → Type 0) → Env → World → Incoming → Type 0
KeyActsIn A env w i =
    (raw : String) (app : Uuid)
    → raw_api_key env (request_of i) ≡ some raw
    → Some (Opens (env.others w.tick w.db) (hash_api_key env raw) app)
        (env.others w.tick w.db).api_keys
    → ActsIn A (with_app_id (request_of i) (env.uuid_string app)).ctx env

-- uuid.Parse reads what String prints.
abbrev pub ParsesPrinted : Env → Type 0
ParsesPrinted env = (app : Uuid) → env.parse_uuid (env.uuid_string app) ≡ some app

module _ {E X : Type 0} (P : Db → Type 0) where
  either_db :
      (out out' : Result E X × World) (db db' : Db)
      → (out'.1.db ≡ db) ⊎ (out'.1.db ≡ db')
      → P db
      → P db'
      → out ≡ out'
      → P out.1.db
  either_db out out' db db' (inl e) p p' same = rw (same, e) p
  either_db out out' db db' (inr e) p p' same = rw (same, e) p'

attached_app :
    (r : Request) (text raw : String) → app_id (with_app_id r text).ctx ≡ some raw → text ≡ raw
unfolding app_id with_app_id
attached_app r text raw h = elim (Bool-cases (str_eq text "")) [
  | inl e ↦ absurd (ground arith)
  | inr e ↦ ground arith
]

module _ (A : Uuid → Type 0) (env : Env) where
  -- The middleware attaches the app that its key opens.
  pub KeyOpensIn-KeyActsIn :
      (w : World) (i : Incoming) → ParsesPrinted env → KeyOpensIn A env w i → KeyActsIn A env w i
  KeyOpensIn-KeyActsIn w i printed own raw app e opens raw' app' e' p =
      let same = attached_app (request_of i) (env.uuid_string app) raw' e' in
      let printed_app = printed app in
      let both : some app ≡ some app' = rw (sym printed_app, same) p in
      subst A (ground arith) (own raw app e opens)

module _ (A : Uuid → Type 0) (P : Db → Type 0) (k : StatementsKeep A P) (parts : Parts)
    (v : VerifierKeeps P parts.auth) (i : Incoming) (env : Env) (st : StableUnder P env) where
  -- A request to the API of an app keeps what the statements in the app of its key keep.
  pub app_api_keeps : (w : World) → KeyActsIn A env w i → P w.db → P (app_api parts i env w).1.db
  unfolding app_api
  app_api_keeps w own p =
      elim (resolve_app_key_guards (serve_mux (app_routes parts) i) (request_of i) env w) [
        | inl (raw, app, e, opens, runs) ↦ rw runs (
            (app_mux-KeepsIn A P k parts v i (with_app_id (request_of i) (env.uuid_string app))).at
              env st (own raw app e opens) (looked_up env w) (st w.tick w.db p))
        | inr (e, w', status, db, runs) ↦
            either_db P _ (err e, w') w.db (env.others w.tick w.db) db p (st w.tick w.db p) runs
      ]

  -- A request to the admin API keeps what the statements in every app keep.
  pub admin_api_keeps :
      ((app : Uuid) → A app) → (w : World) → P w.db → P (admin_api parts i env w).1.db
  unfolding admin_api
  admin_api_keeps own w p =
      elim (resolve_admin_key_guards (serve_mux (admin_routes parts) i) (request_of i) env w) [
        | inl (raw, e, key, runs) ↦ rw runs (
            (admin_mux-Keeps A P k parts v own i (with_admin (request_of i))).at env st
              (looked_up env w) (st w.tick w.db p))
        | inr (e, w', status, db, runs) ↦
            either_db P _ (err e, w') w.db (env.others w.tick w.db) db p (st w.tick w.db p) runs
      ]

  either_keeps :
      (b : Bool) (m n : Handler Output) (w : World)
      → (b ≡ true → P (m env w).1.db)
      → (b ≡ false → P (n env w).1.db)
      → P ((if b then m else n) env w).1.db
  either_keeps true m n w pm pn = pm refl
  either_keeps false m n w pm pn = pn refl

  -- A request that reaches the API of an app, or that an admin sends, keeps `P`.
  pub serve_http_keeps :
      (w : World)
      → KeyActsIn A env w i
      → (is_below "admin" i.path ≡ true → (app : Uuid) → A app)
      → P w.db
      → P (serve_http parts i env w).1.db
  unfolding serve_http require_api_version versioned redirect ◌>>=◌
  serve_http_keeps w own admin p =
      either_keeps (takes "GET" i.method && is_exactly "healthz" i.path) _ _ w (λ _. p)
        λ _.
          either_keeps (is_below "swagger" i.path) _ _ w (λ _. p)
            λ _.
              either_keeps (is_exactly "swagger" i.path) _ _ w (λ _. p)
                λ _.
                  either_keeps (str_eq (i.header "X-API-Version") "") _ _ w (λ _. p)
                    λ _.
                      either_keeps (str_eq (i.header "X-API-Version") "1") _ _ w
                        (λ _.
                          either_keeps (is_below "admin" i.path) (admin_api parts i) _ w
                            (λ e. admin_api_keeps (admin e) w p)
                            (λ _.
                              either_keeps (is_exactly "admin" i.path) _ (app_api parts i) w
                                (λ _. p) (λ _. app_api_keeps w own p)))
                        (λ _. p)

  -- The same for the handler that New returns, which reads the clock first.
  pub new_keeps :
      (w : World)
      → KeyActsIn A env (step w) i
      → (is_below "admin" i.path ≡ true → (app : Uuid) → A app)
      → P w.db
      → P (new parts i env w).1.db
  unfolding new with_logging serve
  new_keeps w own admin p = serve_http_keeps (step w) own admin p
