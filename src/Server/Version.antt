-- ===== src/Server/Version.antt =====
-- The version header of internal/httpserver/server.go.
use open_aura.Prelude.{
  ℕ, ◌≡◌, ◌≢◌, refl, sym, ◌∙◌, false≢true, true, false, ◌&&◌, ◌⊎◌, inl, inr, Bool-cases, str_eq,
  String,
}
use text.Mathlib.TextEquality.{eq_iff}
use open_aura.Effect.{Env, World, err, step, ◌>>=◌}
use open_aura.Httpx.{write_error, serve}
use open_aura.Server.{Incoming, Parts}
use open_aura.Server.Mux.{takes}
use open_aura.Server.Gate.{
  serve_http, versioned, require_api_version, is_below, is_exactly, new, with_logging,
}

-- The request is not for the two parts of the server that have no version.
pub record NeedsVersion (i : Incoming) : Type 0 where
  pub no_health : takes "GET" i.method && is_exactly "healthz" i.path ≡ false
  pub no_swagger : is_below "swagger" i.path ≡ false
  pub no_swagger_root : is_exactly "swagger" i.path ≡ false

module _ (parts : Parts) (i : Incoming) (env : Env) (w : World) where
  serve_http-needs : NeedsVersion i → serve_http parts i ≡ require_api_version (versioned parts) i
  unfolding serve_http
  serve_http-needs n = rw (serve_http, n.no_health, n.no_swagger, n.no_swagger_root) refl

  -- What the server replies to a request with the version `version`, and the state that it leaves.
  pub record IsRefused (status : ℕ) (message : String) : Type 0 where
    pub reply : (new parts i env w).0.0 ≡ write_error status message
    pub logged : (new parts i env w).0.1.status ≡ status
    pub unwritten : (new parts i env w).1.db ≡ w.db

  serve_http-IsRefused :
      (status : ℕ) (message : String)
      → ((w' : World) → serve_http parts i env w' ≡ (err (write_error status message), w'))
      → IsRefused status message
  unfolding new with_logging serve
  serve_http-IsRefused status message runs = record {
    reply = rw (new, with_logging, serve, runs (step w)) refl;
    logged = rw (new, with_logging, serve, runs (step w)) refl;
    unwritten = rw (new, with_logging, serve, runs (step w)) refl;
  }

  blank_runs :
      NeedsVersion i
      → str_eq (i.header "X-API-Version") "" ≡ true
      → (w' : World)
      → serve_http parts i env w' ≡ (err (write_error 400 "X-API-Version header is required"), w')
  unfolding require_api_version ◌>>=◌
  blank_runs n e w' = rw (serve_http-needs n) (rw e refl)

  other_runs :
      NeedsVersion i
      → str_eq (i.header "X-API-Version") "" ≡ false
      → str_eq (i.header "X-API-Version") "1" ≡ false
      → (w' : World)
      → serve_http parts i env w' ≡ (err (write_error 406 "unsupported API version"), w')
  unfolding require_api_version ◌>>=◌
  other_runs n e f w' = rw (serve_http-needs n) (rw (e, f) refl)

  first_runs :
      NeedsVersion i
      → str_eq (i.header "X-API-Version") "" ≡ false
      → str_eq (i.header "X-API-Version") "1" ≡ true
      → serve_http parts i ≡ versioned parts i
  unfolding require_api_version
  first_runs n e f = rw (serve_http-needs n) (rw (e, f) refl)

  differs : (s t : String) → str_eq s t ≡ false → s ≢ t
  differs s t e h = false≢true (sym e ∙ (eq_iff s t).1 h)

  -- A request for anything but /healthz and /swagger goes on to the API exactly when its version
  -- is 1: without a version it is refused with 400 and with another one with 406, both logged, and
  -- nothing is read or written.
  pub new-version :
      NeedsVersion i
      → ((i.header "X-API-Version" ≡ "1") × (serve_http parts i ≡ versioned parts i))
        ⊎ ((i.header "X-API-Version" ≡ "") × IsRefused 400 "X-API-Version header is required")
        ⊎ ((i.header "X-API-Version" ≢ "")
            × (i.header "X-API-Version" ≢ "1")
            × IsRefused 406 "unsupported API version")
  new-version n = elim (Bool-cases (str_eq (i.header "X-API-Version") "")) [
    | inl e ↦ inr (inl ((eq_iff _ _).0 e, serve_http-IsRefused 400 _ (blank_runs n e)))
    | inr e ↦ elim (Bool-cases (str_eq (i.header "X-API-Version") "1")) [
      | inl f ↦ inl ((eq_iff _ _).0 f, first_runs n e f)
      | inr f ↦
          inr (inr (differs _ _ e, differs _ _ f, serve_http-IsRefused 406 _ (other_runs n e f)))
    ]
  ]
