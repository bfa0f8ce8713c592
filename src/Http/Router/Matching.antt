-- ===== src/Http/Router/Matching.antt =====
-- `match_path` computes the reference matcher.
use multithreaded.Base.{
  ℕ, suc, ◌≡◌, refl, sym, ◌∙◌, true, false, none, some, List, [], ◌∷◌, arith, get_elem?, inl, inr,
  ap, Option-cases,
}
use multithreaded.Base.Text.{Str, split_nonempty, insert}
use multithreaded.Http.Router.{
  PathSegment, literal, param, wildcard, Params, slash, match_loop, is_wildcard, length_ok,
  match_path,
}
use multithreaded.Http.Router.Reference.{IsWellFormed, reference}

-- Indexing one further into a longer list.
match_loop-shift :
    (s : Str) (path : List Str) (i : ℕ) (segs : List PathSegment) (params : Params)
    → match_loop (s ∷ path) (suc i) segs params ≡ match_loop path i segs params
unfolding match_loop
match_loop-shift s path i [] params = refl
match_loop-shift s path i (literal lit ∷ segs) params =
    ground (arith, match_loop-shift s path (suc i) segs params)
match_loop-shift s path i (param name ∷ segs) params = elim (Option-cases (get_elem? path i)) [
  | inl e ↦ rw (e, match_loop)
  | inr (x, e) ↦ rw (e, match_loop) (match_loop-shift s path (suc i) segs (insert name x params))
]
match_loop-shift s path i (wildcard name ∷ segs) params = ground arith

length_ok-step :
    (seg : PathSegment) (segs : List PathSegment) (s : Str) (rest : List Str)
    → is_wildcard (some seg) ≡ false
    → length_ok (seg ∷ segs) (s ∷ rest) ≡ length_ok segs rest
unfolding length_ok
length_ok-step seg [] s rest h = ground arith
length_ok-step seg (x ∷ segs) s rest h = ground arith

length_ok-nil :
    (seg : PathSegment) (segs : List PathSegment)
    → is_wildcard (some seg) ≡ false
    → length_ok (seg ∷ segs) [] ≡ false
unfolding length_ok
length_ok-nil seg [] h = ground arith
length_ok-nil seg (x ∷ segs) h = ground arith

length_ok-empty : (s : Str) (rest : List Str) → length_ok [] (s ∷ rest) ≡ false
unfolding length_ok
length_ok-empty s rest = ground arith

length_ok-both : length_ok [] [] ≡ true
unfolding length_ok
length_ok-both = refl

length_ok-wildcard : (name : Str) (path : List Str) → length_ok (wildcard name ∷ []) path ≡ true
unfolding length_ok
length_ok-wildcard name path = ground arith

match_loop-reference :
    (segs : List PathSegment) (path : List Str) (params : Params)
    → IsWellFormed segs
    → length_ok segs path ≡ true
    → match_loop path 0 segs params ≡ reference segs path params
unfolding match_loop reference
match_loop-reference [] [] params w h = refl
match_loop-reference [] (s ∷ rest) params w h = cc (length_ok-empty s rest)
match_loop-reference (wildcard name ∷ segs) [] params w h = ground arith
match_loop-reference (wildcard name ∷ segs) (s ∷ rest) params w h = ground arith
match_loop-reference (literal lit ∷ segs) [] params w h = refl
match_loop-reference (literal lit ∷ segs) (s ∷ rest) params w h = ground (
  arith,
  match_loop-shift s rest 0 segs params,
  length_ok-step (literal lit) segs s rest refl,
  match_loop-reference segs rest params w,
)
match_loop-reference (param name ∷ segs) [] params w h = refl
match_loop-reference (param name ∷ segs) (s ∷ rest) params w h =
    match_loop-shift s rest 0 segs (insert name s params)
    ∙ match_loop-reference segs rest (insert name s params) w
        (sym (length_ok-step (param name) segs s rest refl) ∙ h)

reference-none :
    (segs : List PathSegment) (path : List Str) (params : Params)
    → IsWellFormed segs
    → length_ok segs path ≡ false
    → reference segs path params ≡ none
unfolding reference
reference-none [] [] params w h = cc length_ok-both
reference-none [] (s ∷ rest) params w h = refl
reference-none (wildcard name ∷ segs) path params w h =
    cc (length_ok-wildcard name path, ap (λ l. length_ok (wildcard name ∷ l) path) w)
reference-none (literal lit ∷ segs) [] params w h = refl
reference-none (literal lit ∷ segs) (s ∷ rest) params w h =
    ground (arith, length_ok-step (literal lit) segs s rest refl, reference-none segs rest params w)
reference-none (param name ∷ segs) [] params w h = refl
reference-none (param name ∷ segs) (s ∷ rest) params w h =
    reference-none segs rest (insert name s params) w
      (sym (length_ok-step (param name) segs s rest refl) ∙ h)

-- For a pattern whose wildcard, if any, stands last: the length check and the indexed loop of
-- `match_path` accept the paths that the reference matcher accepts, with the same parameters.
pub match_path-reference :
    (segs : List PathSegment) (path : Str)
    → IsWellFormed segs
    → match_path segs path ≡ reference segs (split_nonempty slash path) []
unfolding match_path
match_path-reference segs path w = ground (
  arith,
  match_loop-reference segs (split_nonempty slash path) [] w,
  reference-none segs (split_nonempty slash path) [] w,
)
