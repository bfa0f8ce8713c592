-- ===== src/Base/Decimal.antt =====
-- `to_string` and `parse` of the unsigned integer types.
use Prim.Native.Nat.{ℕ, zero, suc, ◌+◌, ◌-◌, ◌*◌, ◌/◌, ◌%◌, ◌≤◌, ◌<◌}
use mathlib.Core.Path.{◌≡◌}
use mathlib.Core.Bool.{Bool, ◌&&◌}
use mathlib.Core.Option.{Option, none, some}
use mathlib.Core.List.{[], ◌∷◌}
use native.Mathlib.Omega.{arith}
use mathlib.Core.Logic.{inl, inr}
use multithreaded.Base.Tests.{if◌then◌else◌, ltb, leb, ◌==◌, Bool-cases}
use multithreaded.Base.Text.{Str}

-- The decimal digits of `n`, written in front of `acc`. The fuel `suc n` that `to_string` gives is
-- more than the number of digits.
unfoldable pub digits : ℕ → ℕ → Str → Str
digits zero n acc = acc
digits (suc f) n acc =
    let more = digits f (n / 10) ((48 + n % 10) ∷ acc) in if ltb n 10 then (48 + n) ∷ acc else more

unfoldable pub to_string : ℕ → Str
unfolding digits
to_string n = digits (suc n) n []

abbrev pub is_digit : ℕ → Bool
is_digit c = leb 48 c && leb c 57

-- The digits' loop of `parse`: `none` at another character or beyond `max`, the type's largest
-- value.
unfoldable pub parse_digits : ℕ → ℕ → Str → Option ℕ
parse_digits max acc [] = some acc
parse_digits max acc (c ∷ s) =
    let value = acc * 10 + (c - 48) in
    let rest = parse_digits max value s in if is_digit c && leb value max then rest else none

parse_signless : ℕ → Str → Option ℕ
parse_signless max [] = none
parse_signless max (c ∷ s) = parse_digits max 0 (c ∷ s)

-- `s.parse()` at an unsigned type with the largest value `max`: one leading `+` is allowed.
unfoldable pub parse : ℕ → Str → Option ℕ
unfolding parse_digits parse_signless
parse max [] = none
parse max (c ∷ s) = if c == 43 then parse_signless max s else parse_signless max (c ∷ s)

-- Reading on after the digits of `n` is reading on with `n` appended to the value.
parse_digits-digits :
    (max f n : ℕ) (rest : Str)
    → n < f
    → n ≤ max
    → parse_digits max 0 (digits f n rest) ≡ parse_digits max n rest
unfolding digits parse_digits
parse_digits-digits max zero n rest h k = absurd (omega arith)
parse_digits-digits max (suc f) n rest h k =
    ground (arith, parse_digits-digits max f (n / 10) ((48 + n % 10) ∷ rest))

-- A printed number starts with a digit, so no sign is read.
digits-starts :
    (f n : ℕ) (rest : Str) → n < f → (c : ℕ) × (s : Str) × (digits f n rest ≡ c ∷ s) × (48 ≤ c)
unfolding digits
digits-starts zero n rest h = absurd (omega arith)
digits-starts (suc f) n rest h = elim (Bool-cases (ltb n 10)) [
  | inl small ↦ (48 + n, rest, ground arith, omega arith)
  | inr large ↦
      let (c, s, e, k) = digits-starts f (n / 10) ((48 + n % 10) ∷ rest) (ground arith) in
      (c, s, ground (arith, e), k)
]

parse-digits :
    (max n c : ℕ) (s : Str)
    → c ∷ s ≡ to_string n
    → 48 ≤ c
    → parse max (c ∷ s) ≡ parse_digits max 0 (to_string n)
unfolding parse
parse-digits max n c s e k = ground arith

-- A printed number is read back, at every type that holds it.
pub parse-to_string : (max n : ℕ) → n ≤ max → parse max (to_string n) ≡ some n
unfolding to_string parse_digits
parse-to_string max n h =
    let (c, s, e, k) = digits-starts (suc n) n [] (omega arith) in
    ground (arith, parse-digits max n c s, parse_digits-digits max (suc n) n [])

parse_digits-le : (max acc n : ℕ) (s : Str) → acc ≤ max → parse_digits max acc s ≡ some n → n ≤ max
unfolding parse_digits
parse_digits-le max acc n [] h e = ground arith
parse_digits-le max acc n (c ∷ s) h e =
    ground (arith, parse_digits-le max (acc * 10 + (c - 48)) n s)

parse_signless-le : (max n : ℕ) (s : Str) → parse_signless max s ≡ some n → n ≤ max
unfolding parse_signless
parse_signless-le max n [] e = cc
parse_signless-le max n (c ∷ s) e = parse_digits-le max 0 n (c ∷ s) (omega arith) e

-- What is parsed fits the type.
pub parse-le : (max n : ℕ) (s : Str) → parse max s ≡ some n → n ≤ max
unfolding parse
parse-le max n [] e = cc
parse-le max n (c ∷ s) e =
    ground (arith, parse_signless-le max n s, parse_signless-le max n (c ∷ s))
