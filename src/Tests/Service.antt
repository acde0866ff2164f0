-- ===== src/Tests/Service.antt =====
-- The theorems on the server applied to concrete requests.
use text.Mathlib.TextEquality.{eq_iff}
use open_aura.Prelude.{
  All, ◌≡◌, ◌≢◌, refl, sym, ap, false≢true, ◌∙◌, String, List, [], ◌∷◌, some, In, inl, inr, ◌⊎◌,
  false, arith, pos_part,
}
use open_aura.Effect
use open_aura.Effect.{Env, World, Result, ok, err, ◌>>=◌, up, step}
use open_aura.Schema.{ApiKeyRow}
use open_aura.System.Consistency.{IsConsistent}
use open_aura.System.UniqueKeys.{HasUniqueKeys}
use open_aura.System.Isolation.{view}
use open_aura.Auth.{raw_api_key, hash_api_key, resolve_admin_key, with_admin}
use open_aura.Httpx.{Request}
use open_aura.ApiKey.Gate.{looked_up}
use open_aura.AdminApiKey.Repository.{admin_key_exists, ensure_bootstrap_key}
use open_aura.Sql.{select_one, refuses_insert}
use open_aura.Schema.Writes.{insert_admin_api_key}
use open_aura.AdminApiKey.Gate.{AdmittedAdmin, TurnedAwayAdmin, resolve_admin_key_guards}
use open_aura.App.Handler as AppHandler
use open_aura.Text.{is_space, trim_space, split}
use open_aura.Config.{load, split_csv}
use open_aura.Config.Csv.{Part, blanks, padded, IsPart, split_csv-joined}
use open_aura.Server.{Incoming, deliver, user}
use open_aura.Server.Mux.{Route, lit, wild, match_path, serve_mux, with_values}
use open_aura.Server.Routes.{route, app_routes, auth_routes, user_routes}
use open_aura.Server.Routing.{serve_mux-route}
use open_aura.User.Handler as UserHandler
use open_aura.Server.Gate.{request_of, is_below, serve_http, versioned}
use open_aura.Server.Version.{IsRefused, new-version}
use open_aura.Start.{run, start, serve_all, parts_of, token_config}
use open_aura.Start.Invariants.{run-IsConsistent, run-HasUniqueKeys}
use open_aura.Start.Isolation.{IsOutside, serve_all-isolates}
use open_aura.Start.Bootstrap.{start-resolve_admin_key}
use open_aura.UserAuth.{Claims}
use open_aura.UserAuth.Token.{issue_token, parse_token, whole_seconds}
use open_aura.UserAuth.Token.Issued.{IsOf, issue_token-parse_token}
use open_aura.Examples.{quiet, sample_world, sample_user, sample_request}
use open_aura.Examples.Tokens.{sample_jwt, sample_jwt-IsJwt, letters-unary}
use open_aura.Examples.Service.{
  printing, two_apps, sample_settings, sample_config, sample_service, sample_requests, request_with,
}

two_apps-IsConsistent : IsConsistent two_apps.db
two_apps-IsConsistent = record {
  assignments = ((1, refl, refl, refl), tt);
  permissions = ((1, refl, refl, refl), tt);
}

run-IsConsistent_example : IsConsistent (run sample_service sample_requests printing two_apps).db
run-IsConsistent_example =
    run-IsConsistent sample_service sample_requests printing two_apps (λ n db h. h)
      two_apps-IsConsistent

hashes_differ : ◌≢◌ {A = String} "oa_app_1" "oa_app_2"
hashes_differ e = false≢true ((eq_iff "oa_app_1" "oa_app_2").1 e)

two_apps-HasUniqueKeys : HasUniqueKeys two_apps.db
two_apps-HasUniqueKeys = record {
  app_keys = ((hashes_differ, tt), (tt, tt));
  admin_keys = tt;
  identities = tt;
}

run-HasUniqueKeys_example : HasUniqueKeys (run sample_service sample_requests printing two_apps).db
run-HasUniqueKeys_example =
    run-HasUniqueKeys sample_service sample_requests printing two_apps (λ n db h. h)
      two_apps-HasUniqueKeys

sent_key :
    (method : String) (path : List String) (body : String)
    → raw_api_key printing (request_of (request_with "oa_app_2" method path body)) ≡ some "oa_app_2"
unfolding raw_api_key trim_space
sent_key method path body = refl

module _ (method : String) (path : List String) (body : String) where
  outside :
      is_below "admin" path ≡ false
      → IsOutside (view 1 two_apps.db) printing (request_with "oa_app_2" method path body)
  outside n = record { no_admin = n; no_key = λ raw k e m same. other raw k e m same }
    where
      other :
          (raw : String) (k : ApiKeyRow)
          → raw_api_key printing (request_of (request_with "oa_app_2" method path body)) ≡ some raw
          → In k (view 1 two_apps.db).api_keys
          → k.key_hash ≢ hash_api_key printing raw
      other raw k e (inl a) same =
          let sent : some raw ≡ some "oa_app_2" = sym e ∙ sent_key method path body in
          let clash : ◌≡◌ {A = String} "oa_app_1" "oa_app_2" =
            ground (arith, ap (λ x. x.key_hash) a) in
          absurd (false≢true ((eq_iff "oa_app_1" "oa_app_2").1 clash))
      other raw k e (inr m) same = elim m [ ]

serve_all-isolates_example :
    view 1 (serve_all (parts_of sample_service sample_config) sample_requests printing two_apps).db
    ≡ view 1 two_apps.db
serve_all-isolates_example =
    serve_all-isolates sample_service sample_config 1 sample_requests printing two_apps
      (λ app. cc (letters-unary app)) (λ n db h. h)
      (
        outside "POST" ("tenants" ∷ []) "" refl,
        (
          outside "POST" ("users" ∷ []) "bob@x" refl,
          (
            outside "POST" ("auth" ∷ "register" ∷ []) "eve@x" refl,
            (outside "DELETE" ("users" ∷ "aaa" ∷ []) "" refl, tt),
          ),
        ),
      )

resolve_admin_key_guards_example :
    AdmittedAdmin AppHandler.get sample_request quiet sample_world
    ⊎ TurnedAwayAdmin AppHandler.get sample_request quiet sample_world
resolve_admin_key_guards_example =
    resolve_admin_key_guards AppHandler.get sample_request quiet sample_world

abbrev unversioned : Incoming
unversioned = record {
  method = "GET";
  path = "users" ∷ [];
  header = λ name. "";
  query = λ name. "";
  body = "";
}

new-version_example :
    ((unversioned.header "X-API-Version" ≡ "1")
      × (serve_http (parts_of sample_service sample_config) unversioned
          ≡ versioned (parts_of sample_service sample_config) unversioned))
    ⊎ ((unversioned.header "X-API-Version" ≡ "")
        × IsRefused
            (parts_of sample_service sample_config)
            unversioned
            quiet
            sample_world
            400
            "X-API-Version header is required")
    ⊎ ((unversioned.header "X-API-Version" ≢ "")
        × (unversioned.header "X-API-Version" ≢ "1")
        × IsRefused
            (parts_of sample_service sample_config)
            unversioned
            quiet
            sample_world
            406
            "unsupported API version")
new-version_example =
    new-version (parts_of sample_service sample_config) unversioned quiet sample_world
      (record { no_health = refl; no_swagger = refl; no_swagger_root = refl })

-- " app.one ,, app.two"
abbrev sample_parts : List Part
sample_parts = padded " " "app.one" " " ∷ blanks "" ∷ padded " " "app.two" "" ∷ []

sample_parts-ArePart : All IsPart sample_parts
unfolding is_space
sample_parts-ArePart = (
  (refl, (refl, (refl, (refl, (refl, (refl, (refl, (refl, tt))))))), refl, refl, refl),
  (
    refl,
    ((refl, (refl, (refl, (refl, (refl, (refl, (refl, (refl, tt))))))), refl, refl, refl), tt),
  ),
)

split_csv-joined_example : split_csv " app.one ,, app.two" ≡ "app.one" ∷ "app.two" ∷ []
split_csv-joined_example = split_csv-joined sample_parts sample_parts-ArePart

sample_loaded : load sample_settings ≡ ok sample_config
unfolding load split_csv trim_space split
sample_loaded = refl

issue_token-parse_token_example :
    (token : String) × (c : Claims) × ((issue_token sample_jwt
        (token_config sample_config)
        sample_user
        quiet
        sample_world).0
      ≡ ok (token, whole_seconds (pos_part sample_config.jwt_ttl)))
    × ((parse_token sample_jwt (token_config sample_config) token quiet (step sample_world)).0
        ≡ ok c)
    × IsOf quiet sample_user c
issue_token-parse_token_example =
    issue_token-parse_token sample_settings sample_config sample_jwt sample_user quiet sample_world
      (step sample_world) sample_loaded sample_jwt-IsJwt (omega arith)

abbrev admin_request : Request
admin_request = request_of (request_with "oa_admin_1" "GET" ("admin" ∷ "apps" ∷ []) "")

sent_admin_key : raw_api_key quiet admin_request ≡ some "oa_admin_1"
unfolding raw_api_key trim_space
sent_admin_key = refl

started : (w' : World) × (start sample_service quiet sample_world ≡ (ok sample_config, w'))
unfolding start ◌>>=◌ Effect.map_err load ensure_bootstrap_key Effect.query select_one
    Effect.new_uuid Effect.now Effect.exec insert_admin_api_key refuses_insert split_csv trim_space
    split
started = (_, refl)

start-resolve_admin_key_example :
    resolve_admin_key admin_key_exists AppHandler.get admin_request quiet started.0
    ≡ AppHandler.get (with_admin admin_request) quiet (looked_up quiet started.0)
start-resolve_admin_key_example =
    start-resolve_admin_key sample_service sample_config quiet sample_world started.0 AppHandler.get
      admin_request started.1 refl tt (λ n db h. h) (λ n db h. h) sent_admin_key refl

abbrev get_user_request : Incoming
get_user_request = request_with "oa_app_1" "GET" ("users" ∷ "aaa" ∷ []) ""

abbrev get_user_route : Route
get_user_route =
    route "GET" (lit "users" ∷ wild "id" ∷ []) (λ r body. deliver user (UserHandler.get r))

get_user_route-In : In get_user_route (app_routes (parts_of sample_service sample_config))
unfolding app_routes auth_routes user_routes
get_user_route-In = inr (inr (inr (inr (inr (inl refl)))))

get_user_route-takes :
    match_path get_user_route.pattern get_user_request.path ≡ some (("id", "aaa") ∷ [])
unfolding match_path
get_user_route-takes = refl

serve_mux-route_example :
    serve_mux (app_routes (parts_of sample_service sample_config)) get_user_request sample_request
    ≡ get_user_route.serve (with_values sample_request (("id", "aaa") ∷ [])) ""
serve_mux-route_example =
    serve_mux-route (parts_of sample_service sample_config)
      (app_routes (parts_of sample_service sample_config)) get_user_route get_user_request
      sample_request (("id", "aaa") ∷ []) (inl refl) get_user_route-In refl get_user_route-takes
