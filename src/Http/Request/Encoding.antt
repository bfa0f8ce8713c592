-- ===== src/Http/Request/Encoding.antt =====
-- The form encoding of a text, and its decoding.
use multithreaded.Base.{
  ℕ, ◌+◌, ◌-◌, ◌/◌, ◌%◌, ◌<◌, ◌≡◌, refl, ◌∙◌, ap, Bool, true, false, ◌&&◌, ◌||◌, none, some, [],
  ◌∷◌, ◌++◌, map, All, if◌then◌else◌, ltb, leb, ◌==◌, arith, Bool-cases, inl, inr,
}
use multithreaded.Base.Text.{Str}
use multithreaded.Http.Request.{Utf8Lib, to_digit, escaped, decode_loop, unplus, percent_decode}

-- What stands for itself: letters, digits and `-` `_` `.` `~`.
abbrev pub is_unreserved : ℕ → Bool
is_unreserved c =
    (leb b'0' c && leb c b'9')
    || ((leb b'a' c && leb c b'z')
        || ((leb b'A' c && leb c b'Z')
            || ((c == b'-') || ((c == b'_') || ((c == b'.') || (c == b'~'))))))

abbrev pub hex_digit : ℕ → ℕ
hex_digit n = if ltb n 10 then b'0' + n else b'A' + (n - 10)

abbrev pub encode_byte : ℕ → Str
encode_byte c =
    if is_unreserved c
    then c ∷ []
    else if c == b' '
    then b'+' ∷ []
    else b'%' ∷ hex_digit (c / 16) ∷ hex_digit (c % 16) ∷ []

unfoldable pub encode : Str → Str
encode [] = []
encode (c ∷ s) = encode_byte c ++ encode s

hex_digit-to_digit : (n : ℕ) → n < 16 → to_digit (hex_digit n) ≡ some n
unfolding to_digit
hex_digit-to_digit n h = ground arith

hex_digit-unplus : (n : ℕ) → n < 16 → unplus (hex_digit n) ≡ hex_digit n
hex_digit-unplus n h = ground arith

escaped-none : (c hi lo : ℕ) → (c == b'%') ≡ false → escaped c hi lo ≡ none
unfolding escaped
escaped-none c hi lo h = rw (h, escaped) refl

escaped-some : (n : ℕ) → n < 256 → escaped b'%' (hex_digit (n / 16)) (hex_digit (n % 16)) ≡ some n
unfolding escaped
escaped-some n h =
    ground
      (arith, hex_digit-to_digit (n / 16) (omega arith), hex_digit-to_digit (n % 16) (omega arith))

decode-plain : (c : ℕ) (s : Str) → (c == b'%') ≡ false → decode_loop (c ∷ s) ≡ c ∷ decode_loop s
unfolding decode_loop
decode-plain c [] h = refl
decode-plain c (d ∷ []) h = refl
decode-plain c (hi ∷ lo ∷ s) h = rw (escaped-none c hi lo h, decode_loop) refl

decode-escape :
    (n : ℕ) (s : Str)
    → n < 256
    → decode_loop (b'%' ∷ hex_digit (n / 16) ∷ hex_digit (n % 16) ∷ s) ≡ n ∷ decode_loop s
unfolding decode_loop
decode-escape n s h = rw (escaped-some n h, decode_loop) refl

unreserved_plain : (c : ℕ) → is_unreserved c ≡ true → ((c == b'%') ≡ false) × (unplus c ≡ c)
unreserved_plain c h = ground arith

decode-encode_byte :
    (c : ℕ) (s : Str)
    → c < 256
    → decode_loop (map unplus (encode_byte c ++ s)) ≡ c ∷ decode_loop (map unplus s)
decode-encode_byte c s h = elim (Bool-cases (is_unreserved c)) [
  | inl e ↦
      let (plain, same) = unreserved_plain c e in rw (e, same) (decode-plain c (map unplus s) plain)
  | inr e ↦ elim (Bool-cases (c == b' ')) [
    | inl f ↦
        rw (e, f)
          (decode-plain b' ' (map unplus s) refl
            ∙ ap (λ n. n ∷ decode_loop (map unplus s)) (ground arith))
    | inr f ↦
        rw (e, f, hex_digit-unplus (c / 16) (omega arith), hex_digit-unplus (c % 16) (omega arith))
          (decode-escape c (map unplus s) h)
  ]
]

decode-encode : (s : Str) → All (λ c. c < 256) s → decode_loop (map unplus (encode s)) ≡ s
unfolding encode decode_loop
decode-encode [] h = refl
decode-encode (c ∷ s) h =
    decode-encode_byte c (encode s) h.0 ∙ ap (λ t. c ∷ t) (decode-encode s h.1)

module _ ⦃utf8 : Utf8Lib⦄ where
  -- Decoding the form encoding of a text of bytes gives the text back, where it is UTF-8.
  pub percent_decode-encode :
      (s : Str) → All (λ c. c < 256) s → utf8.is_utf8 s ≡ true → percent_decode (encode s) ≡ s
  unfolding percent_decode
  percent_decode-encode s h u = rw (decode-encode s h, u, percent_decode) refl
