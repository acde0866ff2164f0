-- ===== src/Server/Served.antt =====
-- What a request to the server keeps of the database.
use open_aura.Prelude.{
  ◌≡◌, All-In, some, String, List, [], ◌∷◌, In, Bool, true, false, inl, inr, arith, Bool-cases,
  Option-cases, if◌then◌else◌,
}
use open_aura.Schema.{Db, Uuid}
use open_aura.Effect.{pure, ◌>>=◌}
use open_aura.Effect.Keeps.{Keeps, Keeps-pure}
use open_aura.Httpx.{Request, Context, Response, Handler}
use open_aura.System.Statements.{StatementsKeep}
use open_aura.Server.{Incoming, Output, Parts}
use open_aura.Server.Mux.{
  Route, match_path, find_route, takes, with_values, serve_mux, not_found_page, not_allowed_page,
}
use open_aura.Server.Routes.{admin_routes, app_routes}
use open_aura.Server.InApp.{KeepsIn}
use open_aura.Server.KeptEntities.{RouteKeeps, RouteKeepsIn}
use open_aura.Server.Kept.{app_routes-KeepsIn, admin_routes-Keeps}
use open_aura.Server.Handlers.SignIn.{VerifierKeeps}

-- The route that is found is one of the routes.
find_route-In :
    (routes : List Route) (method : String) (path : List String) (r : Route)
    (values : List (String × String))
    → find_route routes method path ≡ some (r, values)
    → In r routes
unfolding find_route
find_route-In [] method path r values h = cc
find_route-In (x ∷ routes) method path r values h = elim (Bool-cases (takes x.method method)) [
  | inr e ↦ inr (find_route-In routes method path r values (rw e at h))
  | inl e ↦ elim (Option-cases (match_path x.pattern path)) [
    | inl n ↦ inr (find_route-In routes method path r values (rw (e, n) at h))
    | inr (vs, m) ↦ inl (ground arith)
  ]
]

module _ (Q : Handler Output → Type 0) where
  if-satisfies : (b : Bool) (m n : Handler Output) → Q m → Q n → Q (if b then m else n)
  if-satisfies true m n qm qn = qm
  if-satisfies false m n qm qn = qn

  -- What the multiplexer does is what one of its routes does, or one of its two pages.
  pub serve_mux-satisfies :
      (routes : List Route) (i : Incoming) (r : Request)
      → ((x : Route)
          → In x routes
          → (values : List (String × String)) → Q (x.serve (with_values r values) i.body))
      → Q (pure not_allowed_page)
      → Q (pure not_found_page)
      → Q (serve_mux routes i r)
  unfolding serve_mux
  serve_mux-satisfies routes i r q not_allowed not_found =
      elim (Option-cases (find_route routes i.method i.path)) [
        | inl n ↦ rw (serve_mux, n) (if-satisfies _ _ _ not_allowed not_found)
        | inr ((x, values), e) ↦
            rw (serve_mux, e) (q x (find_route-In routes i.method i.path x values e) values)
      ]

module _ (A : Uuid → Type 0) (P : Db → Type 0) (k : StatementsKeep A P) (parts : Parts)
    (v : VerifierKeeps P parts.auth) where
  pure-KeepsIn : (c : Context) (o : Response Output) → KeepsIn A P c (pure {E = Response Output} o)
  unfolding ◌>>=◌
  pure-KeepsIn c o = record { at = λ env st own w p. p }

  pub app_mux-KeepsIn :
      (i : Incoming) (r : Request) → KeepsIn A P r.ctx (serve_mux (app_routes parts) i r)
  app_mux-KeepsIn i r =
      serve_mux-satisfies (KeepsIn A P r.ctx) (app_routes parts) i r
        (λ x m values.
          All-In (RouteKeepsIn A P) (app_routes parts) x (app_routes-KeepsIn A P k parts v) m
            (with_values r values) i.body)
        (pure-KeepsIn r.ctx not_allowed_page) (pure-KeepsIn r.ctx not_found_page)

  pub admin_mux-Keeps :
      ((app : Uuid) → A app)
      → (i : Incoming) (r : Request) → Keeps P (serve_mux (admin_routes parts) i r)
  admin_mux-Keeps own i r =
      serve_mux-satisfies (Keeps P) (admin_routes parts) i r
        (λ x m values.
          All-In (RouteKeeps P) (admin_routes parts) x (admin_routes-Keeps A P k parts own) m
            (with_values r values) i.body)
        (Keeps-pure not_allowed_page) (Keeps-pure not_found_page)
