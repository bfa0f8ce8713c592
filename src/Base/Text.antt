-- ===== src/Base/Text.antt =====
-- Texts as UTF-8 bytes, and what the source uses of `str`: comparison, `split`, `join`,
-- `strip_prefix` and `trim`.
use Prim.Native.Nat.{ℕ}
use Prim.Native.Char.{code}
use Prim.Native.String.{String}
use mathlib.Core.Path.{◌≡◌, refl}
use mathlib.Core.Logic.{◌↔◌}
use mathlib.Core.Bool.{Bool, true, false, ◌&&◌, ◌||◌, not}
use mathlib.Core.Option.{Option, none, some}
use mathlib.Core.List.{List, [], ◌∷◌, ◌++◌, reverse}
use native.Mathlib.Omega.{arith}
use multithreaded.Base.Tests.{if◌then◌else◌, ◌==◌}
use multithreaded.Base.Lists.{filter, All}

-- A `str` or `String`: its bytes. The literals of the source are ASCII.
abbrev pub Str : Type 0
Str = List ℕ

unfoldable pub bytes : String → Str
bytes String.[] = []
bytes (String.◌∷◌ c s) = code c ∷ bytes s

unfoldable pub str_eq : Str → Str → Bool
str_eq [] [] = true
str_eq (x ∷ xs) (y ∷ ys) = (x == y) && str_eq xs ys
str_eq _ _ = false

pub str_eq-eq : (s t : Str) → str_eq s t ≡ true → s ≡ t
unfolding str_eq
str_eq-eq [] [] h = refl
str_eq-eq (x ∷ xs) (y ∷ ys) h = ground (arith, str_eq-eq xs ys)
str_eq-eq [] (y ∷ ys) h = cc
str_eq-eq (x ∷ xs) [] h = cc

pub str_eq_self : (s : Str) → str_eq s s ≡ true
unfolding str_eq
str_eq_self [] = refl
str_eq_self (x ∷ xs) = ground (arith, str_eq_self xs)

pub str_eq_iff : (s t : Str) → (str_eq s t ≡ true) ↔ (s ≡ t)
str_eq_iff s t = (str_eq-eq s t, λ e. rw e (str_eq_self t))

abbrev pub is_empty {ℓ} : {A : Type ℓ} → List A → Bool
is_empty [] = true
is_empty (x ∷ xs) = false

-- The pieces between the separators: one more than there are separators.
abbrev pub cons_head : ℕ → List Str → List Str
cons_head c [] = (c ∷ []) ∷ []
cons_head c (p ∷ ps) = (c ∷ p) ∷ ps

unfoldable pub split : ℕ → Str → List Str
split sep [] = [] ∷ []
split sep (c ∷ s) = let rest = split sep s in if c == sep then [] ∷ rest else cons_head c rest

-- `split(sep).filter(|s| !s.is_empty())`
unfoldable pub split_nonempty : ℕ → Str → List Str
unfolding split
split_nonempty sep s = filter (λ p. not (is_empty p)) (split sep s)

unfoldable pub join : ℕ → List Str → Str
join sep [] = []
join sep (p ∷ []) = p
join sep (p ∷ q ∷ ps) = p ++ (sep ∷ join sep (q ∷ ps))

unfoldable pub strip_prefix : Str → Str → Option Str
strip_prefix [] s = some s
strip_prefix (p ∷ ps) [] = none
strip_prefix (p ∷ ps) (c ∷ s) = if p == c then strip_prefix ps s else none

-- A prefix was stripped exactly when the text is the prefix and the rest.
pub strip_prefix-some : (p s r : Str) → strip_prefix p s ≡ some r → s ≡ p ++ r
unfolding strip_prefix
strip_prefix-some [] s r h = ground arith
strip_prefix-some (p ∷ ps) [] r h = cc
strip_prefix-some (p ∷ ps) (c ∷ s) r h = ground (arith, strip_prefix-some ps s r)

pub strip_prefix-append : (p r : Str) → strip_prefix p (p ++ r) ≡ some r
unfolding strip_prefix
strip_prefix-append [] r = refl
strip_prefix-append (p ∷ ps) r = ground (arith, strip_prefix-append ps r)

-- No piece holds the separator.
abbrev pub Avoids : ℕ → Str → Type 0
Avoids sep = All (λ c. (c == sep) ≡ false)

cons_head-Avoids :
    (sep c : ℕ) (ps : List Str)
    → (c == sep) ≡ false
    → All (Avoids sep) ps
    → All (Avoids sep) (cons_head c ps)
cons_head-Avoids sep c [] h k = ((h, tt), tt)
cons_head-Avoids sep c (p ∷ ps) h (k, ks) = ((h, k), ks)

pub split-Avoids : (sep : ℕ) (s : Str) → All (Avoids sep) (split sep s)
unfolding split
split-Avoids sep [] = (tt, tt)
split-Avoids sep (c ∷ s) = ground (arith, split-Avoids sep s, cons_head-Avoids sep c (split sep s))

filter-keeps {ℓ} :
    {A : Type ℓ} (P : A → Type 0) (p : A → Bool) (xs : List A) → All P xs → All P (filter p xs)
filter-keeps P p [] h = tt
filter-keeps P p (x ∷ xs) h = ground (arith, filter-keeps P p xs h.1)

-- A piece of a path: not empty, and free of the separator.
abbrev pub IsPiece : ℕ → Str → Type 0
IsPiece sep p = (is_empty p ≡ false) × Avoids sep p

pieces :
    (sep : ℕ) (ps : List Str)
    → All (Avoids sep) ps
    → All (IsPiece sep) (filter (λ p. not (is_empty p)) ps)
pieces sep [] h = tt
pieces sep ([] ∷ ps) h = pieces sep ps h.1
pieces sep ((c ∷ p) ∷ ps) h = ((refl, h.0), pieces sep ps h.1)

pub split_nonempty-IsPiece : (sep : ℕ) (s : Str) → All (IsPiece sep) (split_nonempty sep s)
unfolding split_nonempty
split_nonempty-IsPiece sep s = pieces sep (split sep s) (split-Avoids sep s)

-- Splitting a joined list of pieces gives the pieces back.
pub split-piece :
    (sep : ℕ) (p s : Str) → Avoids sep p → split sep (p ++ (sep ∷ s)) ≡ p ∷ split sep s
unfolding split
split-piece sep [] s h = ground arith
split-piece sep (c ∷ p) s h = ground (arith, split-piece sep p s h.1)

pub split-last : (sep : ℕ) (p : Str) → Avoids sep p → split sep p ≡ p ∷ []
unfolding split
split-last sep [] h = refl
split-last sep (c ∷ p) h = ground (arith, split-last sep p h.1)

pub split_nonempty-join :
    (sep : ℕ) (ps : List Str) → All (IsPiece sep) ps → split_nonempty sep (join sep ps) ≡ ps
unfolding split_nonempty join
split_nonempty-join sep [] h = refl
split_nonempty-join sep (p ∷ []) h = ground (arith, split-last sep p h.0.1)
split_nonempty-join sep (p ∷ q ∷ ps) h =
    ground
      (arith, split-piece sep p (join sep (q ∷ ps)) h.0.1, split_nonempty-join sep (q ∷ ps) h.1)

-- The first element that satisfies a partial function, `find_map`.
unfoldable pub find_map {ℓ κ} : {A : Type ℓ} {B : Type κ} → (A → Option B) → List A → Option B
find_map f [] = none
find_map f (x ∷ xs) = let rest = find_map f xs in elim (f x) [ none ↦ rest | some b ↦ some b ]

-- A map of texts to values: an insertion replaces the value of its key.
module _ {ℓ} {V : Type ℓ} where
  unfoldable pub lookup : Str → List (Str × V) → Option V
  lookup k [] = none
  lookup k ((j, v) ∷ m) = if str_eq j k then some v else lookup k m

  unfoldable pub insert : Str → V → List (Str × V) → List (Str × V)
  insert k v [] = (k, v) ∷ []
  insert k v ((j, w) ∷ m) = if str_eq j k then (k, v) ∷ m else (j, w) ∷ insert k v m

  pub lookup-insert :
      (k j : Str) (v : V) (m : List (Str × V))
      → lookup j (insert k v m) ≡ (if str_eq k j then some v else lookup j m)
  unfolding lookup insert
  lookup-insert k j v [] = refl
  lookup-insert k j v ((i, w) ∷ m) =
      ground (arith, str_eq_iff k j, str_eq_iff i k, str_eq_iff i j, lookup-insert k j v m)

unfoldable pub filter_map {ℓ κ} : {A : Type ℓ} {B : Type κ} → (A → Option B) → List A → List B
filter_map f [] = []
filter_map f (x ∷ xs) = let rest = filter_map f xs in elim (f x) [ none ↦ rest | some b ↦ b ∷ rest ]

-- The ASCII white space of `char::is_whitespace`.
abbrev pub is_space : ℕ → Bool
is_space c = (c == 32) || ((c == 9) || ((c == 10) || ((c == 11) || ((c == 12) || (c == 13)))))

unfoldable pub trim_start : Str → Str
trim_start [] = []
trim_start (c ∷ s) = let rest = trim_start s in if is_space c then rest else c ∷ s

-- `trim`, for texts whose white space is ASCII.
unfoldable pub trim : Str → Str
unfolding trim_start
trim s = reverse (trim_start (reverse (trim_start s)))
