-- ===== src/Http/Request/Safe.antt =====
-- The characters of an encoding.
use multithreaded.Base.{
  ℕ, ◌/◌, ◌%◌, ◌<◌, ◌≡◌, refl, false, [], ◌∷◌, All, All-append, ◌==◌, arith, Bool-cases, inl, inr,
}
use multithreaded.Base.Text.{Str}
use multithreaded.Http.Request.Encoding.{is_unreserved, encode_byte, hex_digit, encode}

-- What an encoding is made of: ASCII without the two separators.
pub record IsSafe (c : ℕ) : Type 0 where
  pub no_ampersand : (c == b'&') ≡ false
  pub no_equals : (c == b'=') ≡ false
  pub ascii : c < 128

safe : (c : ℕ) → ((c == b'&') ≡ false) → ((c == b'=') ≡ false) → c < 128 → IsSafe c
safe c h k l = record { no_ampersand = h; no_equals = k; ascii = l }

hex_digit-IsSafe : (n : ℕ) → n < 16 → IsSafe (hex_digit n)
hex_digit-IsSafe n h = safe (hex_digit n) (ground arith) (ground arith) (ground arith)

encode_byte-IsSafe : (c : ℕ) → c < 256 → All IsSafe (encode_byte c)
encode_byte-IsSafe c h = elim (Bool-cases (is_unreserved c)) [
  | inl e ↦ rw (e, All) (safe c (ground arith) (ground arith) (ground arith), tt)
  | inr e ↦ elim (Bool-cases (c == b' ')) [
    | inl f ↦ rw (e, f, All) (safe b'+' refl refl (omega arith), tt)
    | inr f ↦
        rw (e, f, All)
          (
            safe b'%' refl refl (omega arith),
            (
              hex_digit-IsSafe (c / 16) (omega arith),
              (hex_digit-IsSafe (c % 16) (omega arith), tt),
            ),
          )
  ]
]

pub encode-IsSafe : (s : Str) → All (λ c. c < 256) s → All IsSafe (encode s)
unfolding encode
encode-IsSafe [] h = tt
encode-IsSafe (c ∷ s) h =
    All-append IsSafe (encode_byte c) (encode s) (encode_byte-IsSafe c h.0) (encode-IsSafe s h.1)

pub All-weaken : (P Q : ℕ → Type 0) → ((c : ℕ) → P c → Q c) → (s : Str) → All P s → All Q s
All-weaken P Q g [] h = tt
All-weaken P Q g (c ∷ s) h = (g c h.0, All-weaken P Q g s h.1)
