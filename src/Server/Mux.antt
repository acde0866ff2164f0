-- ===== src/Server/Mux.antt =====
-- http.ServeMux, for the patterns that server.go registers: a method, and segments of which some are
-- wildcards.
use open_aura.Prelude.{
  Option, none, some, String, List, [], ◌∷◌, Bool, true, false, ◌&&◌, ◌||◌, any, str_eq,
  if◌then◌else◌,
}
use open_aura.Effect.{pure}
use open_aura.Httpx.{Request, Response, Handler, write_json}
use open_aura.Server.{Incoming, Output, plain}

pub data Segment : Type 0 where
  lit : String → Segment
  wild : String → Segment

pub record Route : Type 0 where
  pub method : String
  pub pattern : List Segment
  pub serve : Request → String → Handler Output

abbrev pub bound :
    String → String → Option (List (String × String)) → Option (List (String × String))
bound name x none = none
bound name x (some values) = some ((name, x) ∷ values)

-- the values of the wildcards, when the path matches; a wildcard takes one part that is not blank
unfoldable pub match_path : List Segment → List String → Option (List (String × String))
match_path [] [] = some []
match_path [] (x ∷ path) = none
match_path (s ∷ pattern) [] = none
match_path (lit t ∷ pattern) (x ∷ path) =
    let rest = match_path pattern path in if str_eq t x then rest else none
match_path (wild name ∷ pattern) (x ∷ path) =
    let rest = match_path pattern path in if str_eq x "" then none else bound name x rest

-- a pattern for GET takes HEAD too
abbrev pub takes : String → String → Bool
takes pattern_method method =
    str_eq pattern_method method || (str_eq pattern_method "GET" && str_eq method "HEAD")

-- The patterns for one path and method do not overlap, so the first that matches is the one.
unfoldable pub find_route :
    List Route → String → List String → Option (Route × List (String × String))
find_route [] method path = none
find_route (r ∷ routes) method path =
    let rest = find_route routes method path in
    if takes r.method method
    then elim (match_path r.pattern path) [ none ↦ rest | some values ↦ some (r, values) ]
    else rest

abbrev pub is_some : {A : Type 0} → Option A → Bool
is_some none = false
is_some (some _) = true

-- the value of a wildcard, "" for one that the pattern does not have
unfoldable pub value_of : List (String × String) → String → String
value_of [] name = ""
value_of ((n, x) ∷ values) name = if str_eq n name then x else value_of values name

abbrev pub with_values : Request → List (String × String) → Request
with_values r values = record r { path_value = value_of values }

unfoldable pub not_found_page : Response Output
not_found_page = write_json 404 (plain "404 page not found\n")

unfoldable pub not_allowed_page : Response Output
not_allowed_page = write_json 405 (plain "Method Not Allowed\n")

-- ServeHTTP of a multiplexer with the routes
unfoldable pub serve_mux : List Route → Incoming → Request → Handler Output
unfolding not_found_page not_allowed_page
serve_mux routes i r = elim (find_route routes i.method i.path) [
  | some (route, values) ↦ route.serve (with_values r values) i.body
  | none ↦
      if any (λ x. is_some (match_path x.pattern i.path)) routes
      then pure not_allowed_page
      else pure not_found_page
]
