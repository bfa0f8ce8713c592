-- ===== src/StaticFiles/Path/Joined.antt =====
-- The components of a path that was joined from two.
use multithreaded.Base.{
  ℕ, ◌≡◌, refl, sym, ◌∙◌, ap, Bool, true, false, Option, List, [], ◌∷◌, ◌++◌, map, ◌==◌,
  append_assoc, append-nil, subst, arith, Bool-cases, inl, inr,
}
use multithreaded.Base.Text.{Str, bytes, is_empty, str_eq, split, cons_head, filter_map}
use multithreaded.StaticFiles.Path.{
  slash, Component, root_dir, cur_dir, normal, piece_component, body_components, components_of,
  is_absolute, components, ends_with_slash, push,
}

filter_map-append {ℓ κ} :
    {A : Type ℓ} {B : Type κ} (f : A → Option B) (xs ys : List A)
    → filter_map f (xs ++ ys) ≡ filter_map f xs ++ filter_map f ys
unfolding filter_map
filter_map-append f [] ys = refl
filter_map-append f (x ∷ xs) ys = ground (arith, filter_map-append f xs ys)

abbrev IsFilled {ℓ} : {A : Type ℓ} → List A → Type 0
IsFilled xs = is_empty xs ≡ false

split-IsFilled : (sep : ℕ) (s : Str) → IsFilled (split sep s)
unfolding split
split-IsFilled sep [] = refl
split-IsFilled sep (c ∷ s) = elim (Bool-cases (c == sep)) [
  | inl e ↦ rw e refl
  | inr e ↦ rw e (filled (split sep s))
]
  where
    filled : (ps : List Str) → IsFilled (cons_head c ps)
    filled [] = refl
    filled (p ∷ ps) = refl

cons_head-append :
    (c : ℕ) (ps qs : List Str) → IsFilled ps → cons_head c (ps ++ qs) ≡ cons_head c ps ++ qs
cons_head-append c [] qs h = absurd (ground (arith, h))
cons_head-append c (p ∷ ps) qs h = refl

split-append : (sep : ℕ) (a b : Str) → split sep (a ++ (sep ∷ b)) ≡ split sep a ++ split sep b
unfolding split
split-append sep [] b = ground arith
split-append sep (c ∷ a) b = ground (
  arith,
  split-append sep a b,
  cons_head-append c (split sep a) (split sep b) (split-IsFilled sep a),
)

body-append :
    (ps qs : List Str) → body_components (ps ++ qs) ≡ body_components ps ++ body_components qs
unfolding body_components
body-append ps qs = filter_map-append piece_component ps qs

components_of-append :
    (absolute : Bool) (ps qs : List Str)
    → IsFilled ps
    → components_of absolute (ps ++ qs) ≡ components_of absolute ps ++ body_components qs
unfolding components_of
components_of-append absolute [] qs h = absurd (ground (arith, h))
components_of-append absolute (p ∷ ps) qs h =
    ground (arith, body-append ps qs, body-append (p ∷ ps) qs)

-- A path of normal components only: it is relative, and starts with no `.`.
abbrev pub IsPlain : Str → List Str → Type 0
IsPlain path segments = components path ≡ map normal segments

abbrev starts_specially : List Component → Bool
starts_specially (root_dir ∷ cs) = true
starts_specially (cur_dir ∷ cs) = true
starts_specially _ = false

plain_start :
    (cs : List Component) (segments : List Str)
    → cs ≡ map normal segments
    → starts_specially cs ≡ false
plain_start cs [] h = rw h refl
plain_start cs (s ∷ segments) h = rw h refl

plain_body :
    (absolute : Bool) (ps : List Str) (segments : List Str)
    → components_of absolute ps ≡ map normal segments
    → body_components ps ≡ map normal segments
unfolding components_of body_components filter_map
plain_body absolute [] segments h = h
plain_body true (p ∷ ps) segments h = absurd (ground (arith, plain_start _ segments h))
plain_body false (p ∷ ps) segments h = elim (Bool-cases (str_eq p (bytes "."))) [
  | inl e ↦ absurd (ground (arith, plain_start _ segments (rw e at h)))
  | inr e ↦ rw e at h
]

absolute-starts : (ps : List Str) → IsFilled ps → starts_specially (components_of true ps) ≡ true
unfolding components_of
absolute-starts [] f = absurd (ground (arith, f))
absolute-starts (p ∷ ps) f = refl

pub plain_relative :
    (path : Str) (segments : List Str) → IsPlain path segments → is_absolute path ≡ false
unfolding components
plain_relative path segments h = elim (Bool-cases (is_absolute path)) [
  | inl e ↦ absurd (
      ground (
        arith,
        absolute-starts (split slash path) (split-IsFilled slash path),
        plain_start _ segments (rw e at h),
      ))
  | inr e ↦ e
]

-- A text that ends with the slash.
ends-append : (s : Str) → ends_with_slash s ≡ true → (t : Str) × (s ≡ t ++ (slash ∷ []))
ends-append [] h = absurd (ground (arith, h))
ends-append (c ∷ []) h = ([], ground arith)
ends-append (c ∷ d ∷ s) h = let (t, e) = ends-append (d ∷ s) h in (c ∷ t, ap (λ u. c ∷ u) e)

absolute-append :
    (base path : Str) → is_empty base ≡ false → is_absolute (base ++ path) ≡ is_absolute base
absolute-append [] path h = absurd (ground (arith, h))
absolute-append (c ∷ base) path h = refl

components-append :
    (base path : Str) (segments : List Str)
    → is_empty base ≡ false
    → IsPlain path segments
    → components (base ++ (slash ∷ path)) ≡ components base ++ map normal segments
unfolding components
components-append base path segments f h =
    ap (λ b. components_of b (split slash (base ++ (slash ∷ path))))
      (absolute-append base (slash ∷ path) f)
    ∙ ap (components_of (is_absolute base)) (split-append slash base path)
    ∙ components_of-append (is_absolute base) (split slash base) (split slash path)
        (split-IsFilled slash base)
    ∙ ap (λ cs. components base ++ cs) (plain_body (is_absolute path) (split slash path) segments h)

pub nothing : IsPlain [] []
unfolding components split components_of body_components piece_component filter_map str_eq bytes
nothing = refl

components-root :
    (path : Str) (segments : List Str)
    → IsPlain path segments
    → components (slash ∷ path) ≡ components (slash ∷ []) ++ map normal segments
unfolding components split components_of body_components piece_component filter_map
components-root path segments h =
    ap (λ cs. root_dir ∷ cs) (plain_body (is_absolute path) (split slash path) segments h)

-- Behind a trailing slash the components go on as behind none.
components-trailing :
    (base path : Str) (segments : List Str)
    → IsPlain path segments
    → components ((base ++ (slash ∷ [])) ++ path)
      ≡ components (base ++ (slash ∷ [])) ++ map normal segments
components-trailing [] path segments h = components-root path segments h
components-trailing (c ∷ base) path segments h =
    ap components (append_assoc (c ∷ base) (slash ∷ []) path)
    ∙ components-append (c ∷ base) path segments refl h
    ∙ ap (λ cs. cs ++ map normal segments)
        (sym (components-append (c ∷ base) [] [] refl nothing ∙ append-nil (components (c ∷ base))))

-- Pushing a path of normal components appends them.
pub components-push :
    (base path : Str) (segments : List Str)
    → IsPlain path segments
    → components (push base path) ≡ components base ++ map normal segments
unfolding push
components-push [] path segments h =
    rw (plain_relative path segments h, push)
      (h ∙ ap (λ cs. cs ++ map normal segments) (sym nothing))
components-push (c ∷ base) path segments h =
    let relative = plain_relative path segments h in
    elim (Bool-cases (ends_with_slash (c ∷ base))) [
      | inl e ↦
          let (t, k) = ends-append (c ∷ base) e in
          rw (relative, e, push)
            (subst (λ b. components (b ++ path) ≡ components b ++ map normal segments) (sym k)
              (components-trailing t path segments h))
      | inr e ↦ rw (relative, e, push) (components-append (c ∷ base) path segments refl h)
    ]
