-- ===== src/Http/Router.antt =====
-- src/http/router.rs.
pub mod Reference
pub mod Matching
pub mod Dispatch
pub mod Sound
pub mod Mapped
pub mod Pattern
use multithreaded.Base.{
  ℕ, suc, ◌-◌, ◌+◌, Bool, true, false, not, ◌||◌, ◌&&◌, Option, none, some, List, [], ◌∷◌, ◌++◌,
  map, if◌then◌else◌, ltb, ◌==◌, length, get_elem?, get_last?, drop,
}
use multithreaded.Base.Text.{Str, bytes, str_eq, split_nonempty, join, strip_prefix, lookup, insert}
use multithreaded.Http.Request.{HttpRequest}
use multithreaded.Http.Response.{HttpResponse, HttpLib, text, empty, not_found, method_not_allowed}

pub data PathSegment : Type 0 where
  literal param wildcard : Str → PathSegment

-- `HashMap<String, String>`.
abbrev pub Params : Type 0
Params = List (Str × Str)

abbrev pub slash : ℕ
slash = b'/'

parse_segment : Str → PathSegment
parse_segment seg = elim (strip_prefix (bytes "*") seg) [
  | some name ↦ wildcard name
  | none ↦ elim (strip_prefix (bytes ":") seg) [ some name ↦ param name | none ↦ literal seg ]
]

unfoldable pub parse_pattern : Str → List PathSegment
unfolding parse_segment
parse_pattern pattern = map parse_segment (split_nonempty slash pattern)

-- The `for` loop of `match_path`, from the index `i` on.
match_loop : List Str → ℕ → List PathSegment → Params → Option Params
match_loop path_segs i [] params = some params
match_loop path_segs i (literal lit ∷ segs) params = elim (get_elem? path_segs i) [
  | none ↦ none
  | some s ↦ elim (str_eq s lit) [ true ↦ match_loop path_segs (suc i) segs params | false ↦ none ]
]
match_loop path_segs i (param name ∷ segs) params = elim (get_elem? path_segs i) [
  | none ↦ none
  | some s ↦ match_loop path_segs (suc i) segs (insert name s params)
]
match_loop path_segs i (wildcard name ∷ segs) params = some (
    if ltb i (length path_segs) then insert name (join slash (drop i path_segs)) params else params)

abbrev is_wildcard : Option PathSegment → Bool
is_wildcard (some (wildcard name)) = true
is_wildcard _ = false

-- The length check before the loop.
length_ok : List PathSegment → List Str → Bool
length_ok segments path_segs =
    if is_wildcard (get_last? segments)
    then not (ltb (length path_segs) (length segments - 1))
    else length path_segs == length segments

unfoldable pub match_path : List PathSegment → Str → Option Params
unfolding match_loop length_ok
match_path segments path =
    let path_segs = split_nonempty slash path in
    let looped = match_loop path_segs 0 segments [] in
    if length_ok segments path_segs then looped else none

-- A handler maps a request to what awaiting it gives: `R` is a response, or a computation that ends
-- in one.
pub record RouteEntry (R : Type 0) : Type 0 where
  pub method : Str
  pub segments : List PathSegment
  pub handler : HttpRequest → R

-- `any` registers under the method `*`.
abbrev pub any_method : Str
any_method = bytes "*"

-- `Router::add`, and `get`, `post`, `put`, `delete` and `any`, which call it.
module _ {R : Type 0} where
  unfoldable pub add : List (RouteEntry R) → Str → Str → (HttpRequest → R) → List (RouteEntry R)
  unfolding parse_pattern
  add routes method pattern handler =
      routes ++ record { method = method; segments = parse_pattern pattern; handler = handler } ∷ []

  unfoldable pub method_ok : RouteEntry R → Str → Bool
  method_ok route method = str_eq route.method any_method || str_eq route.method method

module _ ⦃http : HttpLib⦄ {R : Type 0} (reply : HttpResponse → R) where
  -- The `for` loop of `dispatch`, and what follows it.
  dispatch_loop : HttpRequest → Bool → List (RouteEntry R) → R
  dispatch_loop request any_path_matched [] =
      if any_path_matched
      then reply (empty method_not_allowed)
      else reply (text not_found (bytes "404 Not Found\n"))
  dispatch_loop request any_path_matched (route ∷ routes) =
      elim (match_path route.segments request.path) [
        | none ↦ dispatch_loop request any_path_matched routes
        | some params ↦ elim (method_ok route request.method) [
          | true ↦ route.handler (record request { path_params = params })
          | false ↦ dispatch_loop request true routes
        ]
      ]

  unfoldable pub dispatch : List (RouteEntry R) → HttpRequest → R
  unfolding dispatch_loop method_ok
  dispatch routes request = dispatch_loop request false routes
