-- ===== src/StaticFiles/Path/Pieces.antt =====
-- The components of a path, each taken as a path.
use multithreaded.Base.{
  ◌≡◌, refl, sym, ◌∙◌, ap, subst, Bool, true, false, none, some, List, [], ◌∷◌, arith, All,
  Bool-cases, Option-cases, inl, inr, ◌⊎◌,
}
use multithreaded.Base.Text.{
  Str, bytes, str_eq, split, filter_map, Avoids, split-last, split-Avoids,
}
use multithreaded.StaticFiles.Path.{
  slash, Component, parent_dir, normal, piece_component, body_components, components_of,
  is_absolute, components,
}
use multithreaded.StaticFiles.Path.Joined.{IsPlain}

-- A component of a path is normal only for a piece that is plain by itself.
unfoldable pub IsSound : Component → Type 0
IsSound (normal segment) = IsPlain segment (segment ∷ [])
IsSound _ = Unit

Avoids-relative : (p : Str) → Avoids slash p → is_absolute p ≡ false
Avoids-relative [] h = refl
Avoids-relative (c ∷ p) h = h.0

dot_piece : (p : Str) → str_eq p (bytes ".") ≡ true → piece_component p ≡ none
unfolding piece_component
dot_piece p h = ground arith

piece_kept :
    (p : Str) (c : Component) → piece_component p ≡ some c → (c ≡ parent_dir) ⊎ (c ≡ normal p)
unfolding piece_component
piece_kept p c h = ground arith

single : (p : Str) → Avoids slash p → piece_component p ≡ some (normal p) → IsPlain p (p ∷ [])
unfolding components components_of body_components filter_map
single p a h =
    ap (components_of (is_absolute p)) (split-last slash p a)
    ∙ rw (Avoids-relative p a) (ground (arith, dot_piece p))

piece-IsSound :
    (p : Str) → Avoids slash p → (c : Component) → piece_component p ≡ some c → IsSound c
unfolding IsSound
piece-IsSound p a c h = elim (piece_kept p c h) [
  | inl e ↦ subst IsSound (sym e) tt
  | inr e ↦ subst IsSound (sym e) (single p a (h ∙ ap some e))
]

body-IsSound : (ps : List Str) → All (Avoids slash) ps → All IsSound (body_components ps)
unfolding body_components filter_map
body-IsSound [] h = tt
body-IsSound (p ∷ ps) h = elim (Option-cases (piece_component p)) [
  | inl e ↦ rw (e, All) (body-IsSound ps h.1)
  | inr (c, e) ↦ rw (e, All) (piece-IsSound p h.0 c e, body-IsSound ps h.1)
]

pub components-IsSound : (path : Str) → All IsSound (components path)
unfolding components components_of IsSound
components-IsSound path = of_pieces (is_absolute path) (split slash path) (split-Avoids slash path)
  where
    of_pieces :
        (absolute : Bool) (ps : List Str)
        → All (Avoids slash) ps
        → All IsSound (components_of absolute ps)
    of_pieces absolute [] h = tt
    of_pieces true (p ∷ ps) h = (tt, body-IsSound (p ∷ ps) h)
    of_pieces false (p ∷ ps) h = elim (Bool-cases (str_eq p (bytes "."))) [
      | inl e ↦ rw e (tt, body-IsSound ps h.1)
      | inr e ↦ rw e (body-IsSound (p ∷ ps) h)
    ]
