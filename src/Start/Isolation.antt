-- ===== src/Start/Isolation.antt =====
-- What the requests to the server can do to the apps whose keys they do not have.
use open_aura.Prelude.{
  ◌≡◌, ◌≢◌, refl, sym, subst, ap, ◌∙◌, false≢true, ◌+◌, String, List, [], ◌∷◌, All, In, Bool, true,
  false, Bool-cases, ◌==◌, filter, arith, inl, inr, some,
}
use open_aura.Schema.{Uuid, ApiKeyRow}
use open_aura.Effect.{Env, World, step}
use open_aura.Effect.Keeps.{StableUnder}
use open_aura.Auth.{raw_api_key, hash_api_key}
use open_aura.Config.{Config}
use open_aura.System.Isolation.{View, view, Sees}
use open_aura.System.Isolation.Reached.{statements_isolate}
use open_aura.Server.{Incoming}
use open_aura.Server.Gate.{request_of, is_below, new}
use open_aura.Server.Requests.{KeyOpensIn, KeyOpensIn-KeyActsIn, ParsesPrinted, new_keeps}
use open_aura.Start.{Surroundings, parts_of, serve_all}
use open_aura.Start.Kept.{parts_of-VerifierKeeps}

-- The request is none of an admin, and what it sends has not the hash of a key of the view.
pub record IsOutside (v : View) (env : Env) (i : Incoming) : Type 0 where
  pub no_admin : is_below "admin" i.path ≡ false
  pub no_key :
      (raw : String) (k : ApiKeyRow)
      → raw_api_key env (request_of i) ≡ some raw
      → In k v.api_keys
      → k.key_hash ≢ hash_api_key env raw

In-filter :
    {R : Type 0} (p : R → Bool) (rows : List R) (r : R)
    → In r rows
    → p r ≡ true
    → In r (filter p rows)
In-filter p [] r m h = absurd m
In-filter p (x ∷ rows) r m h = elim (Bool-cases (p x)) [
  | inl e ↦ rw e (elim m [ inl same ↦ inl same | inr later ↦ inr (In-filter p rows r later h) ])
  | inr e ↦ rw e (elim m [
    | inl same ↦ absurd (false≢true (sym e ∙ ap p same ∙ h))
    | inr later ↦ In-filter p rows r later h
  ])
]

module _ (b : Uuid) (v : View) (env : Env) where
  outside-KeyOpensIn :
      (w : World) (i : Incoming)
      → Sees b v (env.others w.tick w.db)
      → IsOutside v env i
      → KeyOpensIn (λ app. app ≢ b) env w i
  outside-KeyOpensIn w i sees o raw app e (k, m, opens) same =
      o.no_key raw k e
        (subst (In k) (ap (λ x. x.api_keys) sees) (
          In-filter (λ r. r.app_id == b) (env.others w.tick w.db).api_keys k m
            (ground (arith, opens.of_app))))
        opens.hashed

module _ (s : Surroundings) (cfg : Config) (b : Uuid) (v : View) (env : Env)
    (printed : ParsesPrinted env) (st : StableUnder (Sees b v) env) where
  outside_kept :
      (is : List Incoming) (w : World)
      → All (IsOutside v env) is
      → Sees b v w.db
      → Sees b v (serve_all (parts_of s cfg) is env w).db
  unfolding serve_all
  outside_kept [] w o sees = sees
  outside_kept (i ∷ is) w (o, os) sees = outside_kept is (new (parts_of s cfg) i env w).1 os (
      new_keeps (λ app. app ≢ b) (Sees b v) (statements_isolate b v) (parts_of s cfg)
        (parts_of-VerifierKeeps (Sees b v) s cfg) i env st w
        (KeyOpensIn-KeyActsIn (λ app. app ≢ b) env (step w) i printed
          (outside-KeyOpensIn b v env (step w) i (st (w.tick + 1) w.db sees) o))
        (λ e. absurd (false≢true (sym o.no_admin ∙ e))) sees)

-- Requests to the server that are none of an admin and that send no key with the hash of one of the
-- keys of the app `b`, in any number and order, with any faults and with other writers that leave the
-- rows of `b` alone, leave them as they were: its tenants, users, roles, resources, actions, API keys
-- and identities. (uuid.Parse has to read what String prints.)
pub serve_all-isolates :
    (s : Surroundings) (cfg : Config) (b : Uuid) (is : List Incoming) (env : Env) (w : World)
    → ParsesPrinted env
    → StableUnder (Sees b (view b w.db)) env
    → All (IsOutside (view b w.db) env) is
    → view b (serve_all (parts_of s cfg) is env w).db ≡ view b w.db
serve_all-isolates s cfg b is env w printed st o =
    outside_kept s cfg b (view b w.db) env printed st is w o refl
