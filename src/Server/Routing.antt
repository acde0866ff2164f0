-- ===== src/Server/Routing.antt =====
-- The routes of internal/httpserver/server.go do not overlap.
use text.Mathlib.TextEquality.{eq_iff}
use open_aura.Prelude.{
  ◌≡◌, refl, sym, ◌∙◌, subst, false≢true, Option, none, some, String, List, [], ◌∷◌, In, any,
  In→any, Bool, true, false, not, ◌&&◌, ◌||◌, str_eq, arith, inl, inr, Bool-cases, Option-cases,
  ◌⊎◌, ap,
}
use open_aura.Httpx.{Request}
use open_aura.Server.{Incoming, Parts}
use open_aura.Server.Mux.{
  Segment, lit, wild, Route, bound, match_path, takes, find_route, serve_mux, with_values,
}
use open_aura.Server.Routes.{
  admin_routes, app_routes, auth_routes, user_routes, tenant_routes, role_routes, permission_routes,
  role_assignment_routes, resource_routes, action_routes, access_routes, key_routes,
}

-- No path has both patterns: their lengths differ, or two of their literals.
abbrev patterns_apart : List Segment → List Segment → Bool
patterns_apart [] [] = false
patterns_apart [] (y ∷ q) = true
patterns_apart (x ∷ p) [] = true
patterns_apart (lit s ∷ p) (lit t ∷ q) = let rest = patterns_apart p q in not (str_eq s t) || rest
patterns_apart (lit s ∷ p) (wild t ∷ q) = patterns_apart p q
patterns_apart (wild s ∷ p) (lit t ∷ q) = patterns_apart p q
patterns_apart (wild s ∷ p) (wild t ∷ q) = patterns_apart p q

abbrev overlaps : Route → Route → Bool
overlaps x y = str_eq x.method y.method && not (patterns_apart x.pattern y.pattern)

abbrev all_apart : List Route → Bool
all_apart [] = true
all_apart (x ∷ xs) =
    let rest = all_apart xs in not (str_eq x.method "HEAD") && not (any (overlaps x) xs) && rest

bound-none :
    (name x : String) (o : Option (List (String × String))) → o ≡ none → bound name x o ≡ none
bound-none name x none h = refl
bound-none name x (some v) h = absurd (ground arith)

-- A path that has one of two patterns that are apart has not the other.
patterns_apart_sound :
    (p q : List Segment) (path : List String) (v : List (String × String))
    → patterns_apart p q ≡ true
    → match_path p path ≡ some v
    → match_path q path ≡ none
unfolding match_path
patterns_apart_sound [] [] path v a h = absurd (ground arith)
patterns_apart_sound [] (y ∷ q) [] v a h = refl
patterns_apart_sound [] (y ∷ q) (z ∷ path) v a h = absurd (ground arith)
patterns_apart_sound (x ∷ p) [] [] v a h = absurd (ground arith)
patterns_apart_sound (x ∷ p) [] (z ∷ path) v a h = refl
patterns_apart_sound (x ∷ p) (y ∷ q) [] v a h = absurd (ground arith)
patterns_apart_sound (lit s ∷ p) (lit t ∷ q) (z ∷ path) v a h = elim (Bool-cases (str_eq s z)) [
  | inr e ↦ absurd (ground arith)
  | inl e ↦ elim (Bool-cases (str_eq t z)) [
    | inr f ↦ ground arith
    | inl f ↦
        let same = (eq_iff s t).1 ((eq_iff s z).0 e ∙ sym ((eq_iff t z).0 f)) in
        let rest = patterns_apart_sound p q path v (ground arith) (ground arith) in ground arith
  ]
]
patterns_apart_sound (lit s ∷ p) (wild t ∷ q) (z ∷ path) v a h = elim (Bool-cases (str_eq s z)) [
  | inr e ↦ absurd (ground arith)
  | inl e ↦
      let rest = patterns_apart_sound p q path v a (ground arith) in
      let none_bound = bound-none t z (match_path q path) rest in ground arith
]
patterns_apart_sound (wild s ∷ p) (lit t ∷ q) (z ∷ path) v a h =
    elim (Option-cases (match_path p path)) [
      | inl m ↦ let none_bound = bound-none s z (match_path p path) m in absurd (ground arith)
      | inr (u, m) ↦ let rest = patterns_apart_sound p q path u a m in ground arith
    ]
patterns_apart_sound (wild s ∷ p) (wild t ∷ q) (z ∷ path) v a h =
    elim (Option-cases (match_path p path)) [
      | inl m ↦ let none_bound = bound-none s z (match_path p path) m in absurd (ground arith)
      | inr (u, m) ↦
          let rest = patterns_apart_sound p q path u a m in
          let none_bound = bound-none t z (match_path q path) rest in ground arith
    ]

takes_same :
    (a b m : String)
    → str_eq a "HEAD" ≡ false
    → str_eq b "HEAD" ≡ false
    → takes a m ≡ true
    → takes b m ≡ true
    → str_eq a b ≡ true
takes_same a b m na nb ha hb = elim (Bool-cases (str_eq a m)) [
  | inl e ↦ elim (Bool-cases (str_eq b m)) [
    | inl f ↦ (eq_iff a b).1 ((eq_iff a m).0 e ∙ sym ((eq_iff b m).0 f))
    | inr f ↦
        let head : m ≡ "HEAD" = (eq_iff m "HEAD").0 (ground arith) in
        absurd (false≢true (sym na ∙ (eq_iff a "HEAD").1 ((eq_iff a m).0 e ∙ head)))
  ]
  | inr e ↦
      let head : m ≡ "HEAD" = (eq_iff m "HEAD").0 (ground arith) in
      let get_a : a ≡ "GET" = (eq_iff a "GET").0 (ground arith) in
      elim (Bool-cases (str_eq b m)) [
        | inl f ↦ absurd (false≢true (sym nb ∙ (eq_iff b "HEAD").1 ((eq_iff b m).0 f ∙ head)))
        | inr f ↦
            let get_b : b ≡ "GET" = (eq_iff b "GET").0 (ground arith) in
            (eq_iff a b).1 (get_a ∙ sym get_b)
      ]
]

not_head :
    (routes : List Route) (x : Route)
    → all_apart routes ≡ true
    → In x routes
    → str_eq x.method "HEAD" ≡ false
not_head [] x a m = absurd m
not_head (r ∷ routes) x a (inl e) = subst (λ y. str_eq y.method "HEAD" ≡ false) e (ground arith)
not_head (r ∷ routes) x a (inr m) = not_head routes x (ground arith) m

-- A route that stands behind another one in the list does not overlap with it.
later-apart :
    (r x : Route) (routes : List Route)
    → all_apart (r ∷ routes) ≡ true
    → In x routes
    → overlaps r x ≡ false
later-apart r x routes a m = elim (Bool-cases (overlaps r x)) [
  | inr e ↦ e
  | inl e ↦ let found = In→any (overlaps r) routes x m e in absurd (ground arith)
]

-- Among routes that do not overlap, a route that takes the method and the path is the one that is found.
pub find_route_complete :
    (routes : List Route) (method : String) (path : List String) (x : Route)
    (v : List (String × String))
    → all_apart routes ≡ true
    → In x routes
    → takes x.method method ≡ true
    → match_path x.pattern path ≡ some v
    → find_route routes method path ≡ some (x, v)
unfolding find_route
find_route_complete [] method path x v a m t h = absurd m
find_route_complete (r ∷ routes) method path x v a (inl e) t h =
    let t' : takes r.method method ≡ true = subst (λ y. takes y.method method ≡ true) (sym e) t in
    let h' : match_path r.pattern path ≡ some v =
      subst (λ y. match_path y.pattern path ≡ some v) (sym e) h in
    rw (t', h') (ap (λ y. some (y, v)) e)
find_route_complete (r ∷ routes) method path x v a (inr m) t h =
    let rest = find_route_complete routes method path x v (ground arith) m t h in
    elim (Bool-cases (takes r.method method)) [
      | inr e ↦ rw e rest
      | inl e ↦ elim (Option-cases (match_path r.pattern path)) [
        | inl n ↦ rw (e, n) rest
        | inr (u, n) ↦
            let free = later-apart r x routes a m in
            let same =
              takes_same r.method x.method method (ground arith)
                (not_head routes x (ground arith) m) e t in
            let none_too = patterns_apart_sound r.pattern x.pattern path u (ground arith) n in
            absurd (ground arith)
      ]
    ]

app_routes_apart : (parts : Parts) → all_apart (app_routes parts) ≡ true
unfolding app_routes auth_routes user_routes tenant_routes role_routes permission_routes
    role_assignment_routes resource_routes action_routes access_routes key_routes
app_routes_apart parts = refl

admin_routes_apart : (parts : Parts) → all_apart (admin_routes parts) ≡ true
unfolding admin_routes
admin_routes_apart parts = refl

-- one of the two lists of routes of the server
abbrev pub IsTable : Parts → List Route → Type 0
IsTable parts routes = (routes ≡ app_routes parts) ⊎ (routes ≡ admin_routes parts)

table_apart : (parts : Parts) (routes : List Route) → IsTable parts routes → all_apart routes ≡ true
table_apart parts routes (inl e) = ap all_apart e ∙ app_routes_apart parts
table_apart parts routes (inr e) = ap all_apart e ∙ admin_routes_apart parts

-- A request whose method and path fit a route of the API of an app, or of that of an admin, is served
-- by the handler of this route, with the values of the path: no pattern hides another one.
pub serve_mux-route :
    (parts : Parts) (routes : List Route) (x : Route) (i : Incoming) (r : Request)
    (v : List (String × String))
    → IsTable parts routes
    → In x routes
    → takes x.method i.method ≡ true
    → match_path x.pattern i.path ≡ some v
    → serve_mux routes i r ≡ x.serve (with_values r v) i.body
unfolding serve_mux
serve_mux-route parts routes x i r v table m t h =
    let found =
      find_route_complete routes i.method i.path x v (table_apart parts routes table) m t h in
    rw (serve_mux, found) refl
