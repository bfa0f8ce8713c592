-- ===== src/StaticFiles/Path.antt =====
-- Unix paths as `std::path` takes them apart: `components`, `push` and `join`, `extension`.
pub mod Joined
pub mod Pieces
use multithreaded.Base.{
  ℕ, ◌≡◌, Bool, true, false, Option, none, some, List, [], ◌∷◌, ◌++◌, if◌then◌else◌, ◌==◌,
}
use multithreaded.Base.Text.{Str, bytes, is_empty, str_eq, split, filter_map}

abbrev pub slash : ℕ
slash = b'/'

pub data Component : Type 0 where
  root_dir cur_dir parent_dir : Component
  normal : Str → Component

-- The component of a piece between slashes: none of an empty piece, none of `.`.
unfoldable pub piece_component : Str → Option Component
piece_component piece =
    if is_empty piece
    then none
    else if str_eq piece (bytes ".")
    then none
    else if str_eq piece (bytes "..")
    then some parent_dir
    else some (normal piece)

unfoldable pub body_components : List Str → List Component
unfolding piece_component
body_components ps = filter_map piece_component ps

-- A leading slash is a component, and so is a leading `.` without one.
unfoldable pub components_of : Bool → List Str → List Component
unfolding body_components
components_of absolute [] = []
components_of absolute (p ∷ ps) =
    if absolute
    then root_dir ∷ body_components (p ∷ ps)
    else if str_eq p (bytes ".")
    then cur_dir ∷ body_components ps
    else body_components (p ∷ ps)

abbrev pub is_absolute : Str → Bool
is_absolute [] = false
is_absolute (c ∷ s) = c == slash

unfoldable pub components : Str → List Component
unfolding components_of
components path = components_of (is_absolute path) (split slash path)

abbrev pub ends_with_slash : Str → Bool
ends_with_slash [] = false
ends_with_slash (c ∷ []) = c == slash
ends_with_slash (c ∷ d ∷ s) = ends_with_slash (d ∷ s)

-- `PathBuf::push`, and `Path::join`, which is `push` on a copy.
unfoldable pub push : Str → Str → Str
push base path =
    if is_absolute path
    then path
    else if is_empty base
    then path
    else if ends_with_slash base
    then base ++ path
    else base ++ (slash ∷ path)

-- The text after the last dot, where there is one.
unfoldable pub after_last_dot : Str → Option Str
after_last_dot [] = none
after_last_dot (c ∷ s) =
    let rest = after_last_dot s in
    elim rest [ some e ↦ some e | none ↦ if c == b'.' then some s else none ]

-- A name that is one dot and no other has no extension.
abbrev pub name_extension : Str → Option Str
name_extension [] = none
name_extension (c ∷ s) = after_last_dot s

unfoldable pub extension_of : List Component → Option Str
extension_of [] = none
extension_of (normal name ∷ []) = name_extension name
extension_of (root_dir ∷ []) = none
extension_of (cur_dir ∷ []) = none
extension_of (parent_dir ∷ []) = none
extension_of (_ ∷ c ∷ cs) = extension_of (c ∷ cs)

unfoldable pub extension : Str → Option Str
unfolding components extension_of
extension path = extension_of (components path)
