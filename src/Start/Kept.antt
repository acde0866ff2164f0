-- ===== src/Start/Kept.antt =====
-- What the server that main starts keeps of the database, whatever it is sent.
use open_aura.Prelude.{◌≡◌, subst, some, String, List, [], ◌∷◌, arith}
use open_aura.Schema.{Db, Uuid}
use open_aura.Effect.{Env, World, Result, ok, err}
use open_aura.Effect.Keeps.{Keeps, StableUnder, keeps_rules}
use open_aura.UserAuth.{AppleVerifier}
use open_aura.UserAuth.AppleKeys.{AppleLibrary, new_jwks_apple_verifier, jwks_verifier}
use open_aura.UserAuth.AppleKeys.Kept.{Keeps-verify}
use open_aura.Config.{Config}
use open_aura.System.Statements.{StatementsKeep}
use open_aura.System.Writes.Keys as Writes
use open_aura.Server.{Incoming}
use open_aura.Server.Gate.{new}
use open_aura.Server.Requests.{new_keeps}
use open_aura.Server.Handlers.SignIn.{VerifierKeeps}
use open_aura.Start.{
  Surroundings, parts_of, with_apple, connect, ensure_key, start, serve_all, serve_with, run, Fatal,
}

module _ (P : Db → Type 0) where
  with_apple-Keeps :
      (lib : AppleLibrary) (ids : List String) (v : AppleVerifier)
      → with_apple lib ids ≡ some v
      → (token : String) → Keeps P (v.verify token)
  with_apple-Keeps lib [] v h token = absurd (ground arith)
  with_apple-Keeps lib (id ∷ ids) v h token =
      let e : jwks_verifier lib (id ∷ ids) ≡ v = cc h in
      subst (λ x. Keeps P (x.verify token)) e
        (Keeps-verify P lib (new_jwks_apple_verifier (id ∷ ids)) token)

  pub parts_of-VerifierKeeps :
      (s : Surroundings) (cfg : Config) → VerifierKeeps P (parts_of s cfg).auth
  parts_of-VerifierKeeps s cfg = with_apple-Keeps s.apple_library cfg.apple_client_ids

module _ (A : Uuid → Type 0) (P : Db → Type 0) (k : StatementsKeep A P) where
  Keeps-connect : (s : Surroundings) (url : String) → Keeps P (connect s url)
  unfolding connect
  Keeps-connect s url = record { at = λ env st w p. ground arith }

  Keeps-ensure_key : (raw : String) → Keeps P (ensure_key raw)
  unfolding ensure_key
  Keeps-ensure_key raw = search (keeps_rules, Writes.ensure-Keeps A P k) depth 8

  pub start-Keeps : (s : Surroundings) → Keeps P (start s)
  unfolding start
  start-Keeps s = search (keeps_rules, Keeps-connect, Keeps-ensure_key) depth 12

module _ (P : Db → Type 0) (k : StatementsKeep (λ app. Unit) P) where
  served-Keeps :
      (s : Surroundings) (cfg : Config) (is : List Incoming) (env : Env) (w : World)
      → StableUnder P env
      → P w.db
      → P (serve_all (parts_of s cfg) is env w).db
  unfolding serve_all
  served-Keeps s cfg [] env w st p = p
  served-Keeps s cfg (i ∷ is) env w st p =
      served-Keeps s cfg is env (new (parts_of s cfg) i env w).1 st (
        new_keeps (λ app. Unit) P k (parts_of s cfg) (parts_of-VerifierKeeps P s cfg) i env st w
          (λ raw app e o raw' app' e' p'. tt) (λ e app. tt) p)

  -- The server's whole life keeps what every statement keeps.
  pub run-Keeps :
      (s : Surroundings) (is : List Incoming) (env : Env) (w : World)
      → StableUnder P env
      → P w.db
      → P (run s is env w).db
  unfolding run
  run-Keeps s is env w st p =
      by_start (start s env w) ((start-Keeps (λ app. Unit) P k s).at env st w p)
    where
      by_start :
          (out : Result Fatal Config × World) → P out.1.db → P (serve_with s is out.0 env out.1).db
      by_start (ok cfg, w') p' = served-Keeps s cfg is env w' st p'
      by_start (err e, w') p' = p'
