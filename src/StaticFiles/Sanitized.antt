-- ===== src/StaticFiles/Sanitized.antt =====
-- Which paths are let through, and as what.
use multithreaded.Base.{
  ◌≡◌, refl, sym, ◌∙◌, ap, Bool, true, false, Option, none, some, List, [], ◌∷◌, ◌++◌, map, All,
  any, append_assoc, map-append, append-nil,
}
use multithreaded.Base.Text.{Str}
use multithreaded.StaticFiles.{sanitize_loop, sanitize_path}
use multithreaded.StaticFiles.Path.{
  Component, root_dir, cur_dir, parent_dir, normal, components, push,
}
use multithreaded.StaticFiles.Path.Joined.{IsPlain, components-push, nothing}
use multithreaded.StaticFiles.Path.Pieces.{IsSound, components-IsSound}

-- The components that lead out of a directory.
abbrev pub escapes : Component → Bool
escapes root_dir = true
escapes parent_dir = true
escapes _ = false

-- The names among the components.
abbrev pub names : List Component → List Str
names [] = []
names (normal segment ∷ cs) = segment ∷ names cs
names (_ ∷ cs) = names cs

-- The outcome for a path with the components `cs`.
abbrev pub Sanitizes : List Component → Option Str → Type 0
Sanitizes cs none = any escapes cs ≡ true
Sanitizes cs (some safe_path) =
    (any escapes cs ≡ false) × (components safe_path ≡ map normal (names cs))

-- The loop, from a result with the segments `done`.
abbrev Continues : List Str → List Component → Option Str → Type 0
Continues done cs none = any escapes cs ≡ true
Continues done cs (some safe_path) =
    (any escapes cs ≡ false) × (components safe_path ≡ map normal (done ++ names cs))

shift :
    (done : List Str) (segment : Str) (cs : List Component) (o : Option Str)
    → Continues (done ++ segment ∷ []) cs o
    → Continues done (normal segment ∷ cs) o
shift done segment cs none h = h
shift done segment cs (some safe_path) h =
    (h.0, h.1 ∙ ap (map normal) (append_assoc done (segment ∷ []) (names cs)))

loop-Continues :
    (result : Str) (done : List Str) (cs : List Component)
    → IsPlain result done
    → All IsSound cs
    → Continues done cs (sanitize_loop result cs)
unfolding sanitize_loop IsSound
loop-Continues result done [] h k = (refl, h ∙ ap (map normal) (sym (append-nil done)))
loop-Continues result done (root_dir ∷ cs) h k = refl
loop-Continues result done (parent_dir ∷ cs) h k = refl
loop-Continues result done (cur_dir ∷ cs) h k = loop-Continues result done cs h k.1
loop-Continues result done (normal segment ∷ cs) h k =
    shift done segment cs _
      (loop-Continues (push result segment) (done ++ segment ∷ []) cs (pushed h k.0) k.1)
  where
    pushed :
        IsPlain result done
        → IsPlain segment (segment ∷ [])
        → IsPlain (push result segment) (done ++ segment ∷ [])
    pushed h k =
        components-push result segment (segment ∷ []) k
        ∙ ap (λ cs. cs ++ map normal (segment ∷ [])) h
        ∙ sym (map-append normal done (segment ∷ []))

-- A path is refused exactly when it is absolute or has a component `..`. Otherwise the path that
-- is let through consists of the names among its components, in their order, and nothing else.
pub sanitize_path-Sanitizes : (path : Str) → Sanitizes (components path) (sanitize_path path)
unfolding sanitize_path
sanitize_path-Sanitizes path =
    from_start (components path) _
      (loop-Continues [] [] (components path) nothing (components-IsSound path))
  where
    from_start : (cs : List Component) (o : Option Str) → Continues [] cs o → Sanitizes cs o
    from_start cs none h = h
    from_start cs (some q) h = h
