-- ===== src/Http/Router/Reference.antt =====
-- What a route pattern means, with no index and no length check: one segment at a time.
use multithreaded.Base.{◌≡◌, Option, none, some, List, [], ◌∷◌, if◌then◌else◌}
use multithreaded.Base.Text.{Str, str_eq, join, insert}
use multithreaded.Http.Router.{PathSegment, literal, param, wildcard, Params, slash}

-- A wildcard stands last, as its documentation asks.
abbrev pub IsWellFormed : List PathSegment → Type 0
IsWellFormed [] = Unit {0}
IsWellFormed (wildcard name ∷ segs) = segs ≡ []
IsWellFormed (literal lit ∷ segs) = IsWellFormed segs
IsWellFormed (param name ∷ segs) = IsWellFormed segs

-- The rest of the path goes to the wildcard, unless nothing is left.
abbrev pub capture_rest : Str → List Str → Params → Params
capture_rest name [] params = params
capture_rest name (s ∷ rest) params = insert name (join slash (s ∷ rest)) params

unfoldable pub reference : List PathSegment → List Str → Params → Option Params
reference [] [] params = some params
reference [] (s ∷ rest) params = none
reference (wildcard name ∷ segs) path params = some (capture_rest name path params)
reference (literal lit ∷ segs) [] params = none
reference (literal lit ∷ segs) (s ∷ rest) params =
    let more = reference segs rest params in if str_eq s lit then more else none
reference (param name ∷ segs) [] params = none
reference (param name ∷ segs) (s ∷ rest) params = reference segs rest (insert name s params)
