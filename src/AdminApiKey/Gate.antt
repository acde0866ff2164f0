-- ===== src/AdminApiKey/Gate.antt =====
-- What the middleware in front of the admin API lets through: ResolveAdminKey of internal/auth over
-- AdminKeyExists of internal/adminapikey.
use text.Mathlib.TextEquality.{eq_iff}
use open_aura.Prelude.{
  ◌≡◌, refl, ◌∙◌, String, Option, none, some, Some, Bool, true, false, ◌&&◌, ◌⊎◌, inl, inr,
  Option-cases, arith, str_eq, if◌then◌else◌, In→any,
}
use open_aura.Schema.{Db, AdminApiKeyRow, is_null}
use open_aura.Sql.{select_one}
use open_aura.Sql.Laws.{select_one_sound, any-select_one}
use open_aura.Effect.{
  Env, World, Result, ok, err, Fault, up, refused, reply_lost, raise, query, map_err,
}
use open_aura.Effect.Laws.{bind_ok, bind_err, bind_asks, raise_runs}
use open_aura.Httpx.{Request, Response, Handler, write_error}
use open_aura.Auth.{resolve_admin_key, raw_api_key, with_admin, hash_api_key}
use open_aura.ApiKey.Gate.{looked_up, raw_key_runs, no_raw_key_runs}
use open_aura.AdminApiKey.Repository.{admin_key_exists, row_exists}

-- An active admin key with the hash.
abbrev pub HasAdminKey : Db → String → Type 0
HasAdminKey db hash =
    Some (λ (k : AdminApiKeyRow). (k.key_hash ≡ hash) × (k.revoked_at ≡ none)) db.admin_api_keys

abbrev opens_admin : String → AdminApiKeyRow → Bool
opens_admin hash k = str_eq k.key_hash hash && is_null k.revoked_at

found-HasAdminKey :
    (db : Db) (hash : String) (k : AdminApiKeyRow)
    → select_one (opens_admin hash) db.admin_api_keys ≡ some k
    → HasAdminKey db hash
found-HasAdminKey db hash k h =
    let (m, q) = select_one_sound (opens_admin hash) db.admin_api_keys k h in
    (k, m, ((eq_iff k.key_hash hash).0 (ground arith), ground arith))

module _ {A : Type 0} (next : Request → Handler A) (r : Request) (env : Env) (w : World) where
  -- The request reaches the handler, and what it sent is an active admin key.
  abbrev pub AdmittedAdmin : Type 0
  AdmittedAdmin =
      (raw : String) × (raw_api_key env r ≡ some raw)
      × HasAdminKey (env.others w.tick w.db) (hash_api_key env raw)
      × (resolve_admin_key admin_key_exists next r env w
          ≡ next (with_admin r) env (looked_up env w))

  -- The request is answered without the handler, and nothing of it was written.
  abbrev pub TurnedAwayAdmin : Type 0
  TurnedAwayAdmin =
      (e : Response A) × (w' : World) × ((e.status ≡ 401) ⊎ (e.status ≡ 500))
      × ((w'.db ≡ w.db) ⊎ (w'.db ≡ env.others w.tick w.db))
      × (resolve_admin_key admin_key_exists next r env w ≡ (err e, w'))

  abbrev looked_up_reply : Fault → Option AdminApiKeyRow → Result (Response A) Bool
  looked_up_reply up none = ok false
  looked_up_reply up (some k) = ok true
  looked_up_reply refused o = err (write_error 500 "internal server error")
  looked_up_reply reply_lost o = err (write_error 500 "internal server error")

  abbrev look_up_of : String → Result (Response A) Bool × World
  look_up_of raw =
      map_err (λ _. write_error 500 "internal server error")
        (admin_key_exists (hash_api_key env raw)) env w

  look_up_runs :
      (raw : String) (o : Option AdminApiKeyRow) (f : Fault)
      → select_one (opens_admin (hash_api_key env raw)) (env.others w.tick w.db).admin_api_keys ≡ o
      → env.fault w.tick ≡ f
      → look_up_of raw ≡ (looked_up_reply f o, looked_up env w)
  unfolding admin_key_exists row_exists map_err query
  look_up_runs raw (some k) up e f = rw (f, e)
  look_up_runs raw none up e f = rw (f, e)
  look_up_runs raw o refused e f = rw f
  look_up_runs raw o reply_lost e f = rw f

  gate_ok :
      (raw : String) (found : Bool)
      → raw_api_key env r ≡ some raw
      → look_up_of raw ≡ (ok found, looked_up env w)
      → resolve_admin_key admin_key_exists next r env w
        ≡ (if found then next (with_admin r) else raise (write_error 401 "invalid api key")) env
            (looked_up env w)
  unfolding resolve_admin_key
  gate_ok raw found h l =
      bind_ok _ _ env w w raw (raw_key_runs r env w raw h)
      ∙ bind_asks _ _ env w
      ∙ bind_ok _ _ env w (looked_up env w) found l

  gate_err :
      (raw : String) (e : Response A)
      → raw_api_key env r ≡ some raw
      → look_up_of raw ≡ (err e, looked_up env w)
      → resolve_admin_key admin_key_exists next r env w ≡ (err e, looked_up env w)
  unfolding resolve_admin_key
  gate_err raw e h l =
      bind_ok _ _ env w w raw (raw_key_runs r env w raw h)
      ∙ bind_asks _ _ env w
      ∙ bind_err _ _ env w (looked_up env w) e l

  looked_up_key :
      (raw : String) (o : Option AdminApiKeyRow) (f : Fault)
      → raw_api_key env r ≡ some raw
      → select_one (opens_admin (hash_api_key env raw)) (env.others w.tick w.db).admin_api_keys ≡ o
      → env.fault w.tick ≡ f
      → AdmittedAdmin ⊎ TurnedAwayAdmin
  looked_up_key raw (some k) up h e f = inl (
    raw,
    h,
    found-HasAdminKey (env.others w.tick w.db) (hash_api_key env raw) k e,
    gate_ok raw true h (look_up_runs raw _ up e f),
  )
  looked_up_key raw none up h e f = inr (
    write_error 401 "invalid api key",
    looked_up env w,
    inl refl,
    inr refl,
    gate_ok raw false h (look_up_runs raw _ up e f) ∙ raise_runs _ env _,
  )
  looked_up_key raw o refused h e f =
      inr
        (_, looked_up env w, inr refl, inr refl, gate_err raw _ h (look_up_runs raw _ refused e f))
  looked_up_key raw o reply_lost h e f =
      inr (
        _,
        looked_up env w,
        inr refl,
        inr refl,
        gate_err raw _ h (look_up_runs raw _ reply_lost e f),
      )

  no_key : raw_api_key env r ≡ none → TurnedAwayAdmin
  unfolding resolve_admin_key
  no_key h = (_, w, inl refl, inl refl, bind_err _ _ env w w _ (no_raw_key_runs r env w h))

  -- Behind the middleware of the admin API a handler runs only for a request that sent an active admin
  -- key; every other request gets 401 or 500 and writes nothing.
  pub resolve_admin_key_guards : AdmittedAdmin ⊎ TurnedAwayAdmin
  resolve_admin_key_guards = elim (Option-cases (raw_api_key env r)) [
    | inl h ↦ inr (no_key h)
    | inr (raw, h) ↦ looked_up_key raw _ _ h refl refl
  ]

  -- A request that sent an active admin key reaches the handler, when the database answers.
  pub resolve_admin_key_admits :
      (raw : String)
      → raw_api_key env r ≡ some raw
      → env.fault w.tick ≡ up
      → HasAdminKey (env.others w.tick w.db) (hash_api_key env raw)
      → resolve_admin_key admin_key_exists next r env w ≡ next (with_admin r) env (looked_up env w)
  resolve_admin_key_admits raw h f (k, m, p) =
      let hash = hash_api_key env raw in
      let opens : opens_admin hash k ≡ true = ground (arith, (eq_iff k.key_hash hash).1 p.0, p.1) in
      let found = In→any (opens_admin hash) (env.others w.tick w.db).admin_api_keys k m opens in
      let (x, e) =
        any-select_one (opens_admin hash) (env.others w.tick w.db).admin_api_keys found in
      gate_ok raw true h (look_up_runs raw (some x) up e f)
