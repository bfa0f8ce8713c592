-- ===== src/Http/Router/Pattern.antt =====
-- Patterns written out and parsed back.
use multithreaded.Base.{◌≡◌, refl, false, arith, List, [], ◌∷◌, map, All, ◌==◌}
use multithreaded.Base.Text.{Str, bytes, split_nonempty-join, join, strip_prefix, IsPiece}
use multithreaded.Http.Router.{
  PathSegment, literal, param, wildcard, slash, parse_segment, parse_pattern,
}

abbrev pub print_segment : PathSegment → Str
print_segment (literal lit) = lit
print_segment (param name) = b':' ∷ name
print_segment (wildcard name) = b'*' ∷ name

-- The pattern in the syntax of `parse_pattern`, without a leading slash.
abbrev pub print_pattern : List PathSegment → Str
print_pattern segs = join slash (map print_segment segs)

abbrev pub StartsPlainly : Str → Type 0
StartsPlainly [] = Unit {0}
StartsPlainly (c ∷ s) = ((b'*' == c) ≡ false) × ((b':' == c) ≡ false)

-- A literal is not empty and does not start with `*` or `:`; nothing holds a slash.
abbrev pub IsPrintable : PathSegment → Type 0
IsPrintable (literal lit) = IsPiece slash lit × StartsPlainly lit
IsPrintable (param name) = IsPiece slash (b':' ∷ name)
IsPrintable (wildcard name) = IsPiece slash (b'*' ∷ name)

parse_segment-print :
    (seg : PathSegment) → IsPrintable seg → parse_segment (print_segment seg) ≡ seg
unfolding parse_segment strip_prefix bytes
parse_segment-print (literal []) h = cc
parse_segment-print (literal (c ∷ lit)) h = ground arith
parse_segment-print (param name) h = ground arith
parse_segment-print (wildcard name) h = ground arith

printed-IsPiece :
    (segs : List PathSegment) → All IsPrintable segs → All (IsPiece slash) (map print_segment segs)
printed-IsPiece [] h = tt
printed-IsPiece (literal lit ∷ segs) (h, hs) = (h.0, printed-IsPiece segs hs)
printed-IsPiece (param name ∷ segs) (h, hs) = (h, printed-IsPiece segs hs)
printed-IsPiece (wildcard name ∷ segs) (h, hs) = (h, printed-IsPiece segs hs)

map-parse-print :
    (segs : List PathSegment)
    → All IsPrintable segs
    → map parse_segment (map print_segment segs) ≡ segs
map-parse-print [] h = refl
map-parse-print (seg ∷ segs) (h, hs) = rw (parse_segment-print seg h, map-parse-print segs hs) refl

-- For segments without slashes, whose literals are not empty and start with neither `*` nor `:`:
-- parsing the written pattern gives the segments back.
pub parse_pattern-print_pattern :
    (segs : List PathSegment) → All IsPrintable segs → parse_pattern (print_pattern segs) ≡ segs
unfolding parse_pattern
parse_pattern-print_pattern segs h =
    rw (split_nonempty-join slash (map print_segment segs) (printed-IsPiece segs h))
      (map-parse-print segs h)
