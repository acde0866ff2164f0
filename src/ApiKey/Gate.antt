-- ===== src/ApiKey/Gate.antt =====
-- What the middleware in front of the API of an app lets through: ResolveAppKey of internal/auth over
-- ResolveAppIDByKeyHash of internal/apikey.
use open_aura.Prelude.{
  ◌≡◌, refl, ◌∙◌, ◌+◌, String, Option, none, some, Some, ◌⊎◌, inl, inr, Option-cases, arith,
}
use open_aura.Schema.{Uuid}
use open_aura.Schema.Constraints.{api_key_table}
use open_aura.Sql.Unique.{NoClash}
use open_aura.Store.{map_read_error}
use open_aura.Effect.Laws.{bind_ok, bind_err, bind_asks}
use open_aura.Effect.{
  Env, World, Result, ok, err, Fault, up, refused, reply_lost, query, map_err, ◌>>=◌,
}
use open_aura.Httpx.{Request, Response, Handler, write_error}
use open_aura.Auth.{
  resolve_app_key, raw_api_key, require_raw_key, app_key_error, with_app_id, hash_api_key,
}
use open_aura.ApiKey.Repository.{resolve_app_id_by_key_hash}
use open_aura.ApiKey.Resolve.{Opens, resolved_app, resolved_app_sound, resolved_app_complete}

-- the state after the look-up of a key
abbrev pub looked_up : Env → World → World
looked_up env w = record w { db = env.others w.tick w.db; tick = w.tick + 1 }

module _ {A : Type 0} (r : Request) (env : Env) (w : World) where
  pub raw_key_runs :
      (raw : String) → raw_api_key env r ≡ some raw → require_raw_key {A = A} r env w ≡ (ok raw, w)
  unfolding require_raw_key
  raw_key_runs raw h = ground arith

  pub no_raw_key_runs :
      raw_api_key env r ≡ none
      → require_raw_key {A = A} r env w ≡ (err (write_error 401 "X-API-Key header is required"), w)
  unfolding require_raw_key
  no_raw_key_runs h = ground arith

module _ {A : Type 0} (next : Request → Handler A) (r : Request) (env : Env) (w : World) where
  -- The request reaches the handler, in the app of an active key with the hash of what it sent.
  abbrev pub Admitted : Type 0
  Admitted =
      (raw : String) × (app : Uuid) × (raw_api_key env r ≡ some raw)
      × Some (Opens (env.others w.tick w.db) (hash_api_key env raw) app)
          (env.others w.tick w.db).api_keys
      × (resolve_app_key resolve_app_id_by_key_hash next r env w
          ≡ next (with_app_id r (env.uuid_string app)) env (looked_up env w))

  -- The request is answered without the handler, and nothing of it was written.
  abbrev pub TurnedAway : Type 0
  TurnedAway =
      (e : Response A) × (w' : World) × ((e.status ≡ 401) ⊎ (e.status ≡ 500))
      × ((w'.db ≡ w.db) ⊎ (w'.db ≡ env.others w.tick w.db))
      × (resolve_app_key resolve_app_id_by_key_hash next r env w ≡ (err e, w'))

  -- what the look-up of the hash replies
  abbrev looked_up_reply : Fault → Option Uuid → Result (Response A) Uuid
  looked_up_reply up (some app) = ok app
  looked_up_reply up none = err (write_error 401 "invalid api key")
  looked_up_reply refused o = err (write_error 500 "internal server error")
  looked_up_reply reply_lost o = err (write_error 500 "internal server error")

  look_up_runs :
      (hash : String) (o : Option Uuid) (f : Fault)
      → resolved_app (env.others w.tick w.db) hash ≡ o
      → env.fault w.tick ≡ f
      → map_err app_key_error (resolve_app_id_by_key_hash hash) env w
        ≡ (looked_up_reply f o, looked_up env w)
  unfolding app_key_error resolve_app_id_by_key_hash map_err query map_read_error
  look_up_runs hash (some app) up e f = rw (f, e)
  look_up_runs hash none up e f = rw (f, e)
  look_up_runs hash o refused e f = rw f
  look_up_runs hash o reply_lost e f = rw f

  abbrev look_up_of : String → Result (Response A) Uuid × World
  look_up_of raw = map_err app_key_error (resolve_app_id_by_key_hash (hash_api_key env raw)) env w

  gate_ok :
      (raw : String) (app : Uuid)
      → raw_api_key env r ≡ some raw
      → look_up_of raw ≡ (ok app, looked_up env w)
      → resolve_app_key resolve_app_id_by_key_hash next r env w
        ≡ next (with_app_id r (env.uuid_string app)) env (looked_up env w)
  unfolding resolve_app_key
  gate_ok raw app h l =
      bind_ok _ _ env w w raw (raw_key_runs r env w raw h)
      ∙ bind_asks _ _ env w
      ∙ bind_ok _ _ env w (looked_up env w) app l

  gate_err :
      (raw : String) (e : Response A)
      → raw_api_key env r ≡ some raw
      → look_up_of raw ≡ (err e, looked_up env w)
      → resolve_app_key resolve_app_id_by_key_hash next r env w ≡ (err e, looked_up env w)
  unfolding resolve_app_key
  gate_err raw e h l =
      bind_ok _ _ env w w raw (raw_key_runs r env w raw h)
      ∙ bind_asks _ _ env w
      ∙ bind_err _ _ env w (looked_up env w) e l

  looked_up_key :
      (raw : String) (o : Option Uuid) (f : Fault)
      → raw_api_key env r ≡ some raw
      → resolved_app (env.others w.tick w.db) (hash_api_key env raw) ≡ o
      → env.fault w.tick ≡ f
      → Admitted ⊎ TurnedAway
  looked_up_key raw (some app) up h e f =
      inl (raw, app, h, resolved_app_sound _ _ _ e, gate_ok raw app h (look_up_runs _ _ up e f))
  looked_up_key raw none up h e f =
      inr (_, looked_up env w, inl refl, inr refl, gate_err raw _ h (look_up_runs _ _ up e f))
  looked_up_key raw o refused h e f =
      inr (_, looked_up env w, inr refl, inr refl, gate_err raw _ h (look_up_runs _ _ refused e f))
  looked_up_key raw o reply_lost h e f =
      inr
        (_, looked_up env w, inr refl, inr refl, gate_err raw _ h (look_up_runs _ _ reply_lost e f))

  no_key : raw_api_key env r ≡ none → TurnedAway
  unfolding resolve_app_key require_raw_key ◌>>=◌
  no_key h = (write_error 401 "X-API-Key header is required", w, inl refl, inl refl, ground arith)

  -- Behind the middleware a handler runs only for the app of an active key of an active app whose hash
  -- is the hash of the key that the request sent; every other request gets 401 or 500 and writes nothing.
  pub resolve_app_key_guards : Admitted ⊎ TurnedAway
  resolve_app_key_guards = elim (Option-cases (raw_api_key env r)) [
    | inl h ↦ inr (no_key h)
    | inr (raw, h) ↦ looked_up_key raw _ _ h refl refl
  ]

  -- A request with the key of an active app's active key reaches the handler in that app, when the
  -- database answers and no two keys have one hash.
  pub resolve_app_key_admits :
      (raw : String) (app : Uuid)
      → raw_api_key env r ≡ some raw
      → env.fault w.tick ≡ up
      → NoClash api_key_table.clash (env.others w.tick w.db).api_keys
      → Some
          (Opens (env.others w.tick w.db) (hash_api_key env raw) app)
          (env.others w.tick w.db).api_keys
      → resolve_app_key resolve_app_id_by_key_hash next r env w
        ≡ next (with_app_id r (env.uuid_string app)) env (looked_up env w)
  resolve_app_key_admits raw app h f u o =
      gate_ok raw app h (look_up_runs _ (some app) up (resolved_app_complete _ _ _ u o) f)
