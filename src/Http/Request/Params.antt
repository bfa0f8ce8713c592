-- ===== src/Http/Request/Params.antt =====
-- Query and form parameters of encoded pairs.
use multithreaded.Base.{
  ℕ, ◌<◌, ◌≡◌, refl, ◌∙◌, ap, true, false, none, some, List, [], ◌∷◌, ◌++◌, map, All, All-append,
  if◌then◌else◌, ◌==◌, arith,
}
use multithreaded.Base.Text.{
  Str, str_eq, split, split-piece, split-last, join, find_map, lookup, Avoids,
}
use multithreaded.Http.Request.{
  HttpRequest, Utf8Lib, split_pair, param_value, find_param, query_param, form_param,
}
use multithreaded.Http.Request.Encoding.{encode, percent_decode-encode}
use multithreaded.Http.Request.Safe.{IsSafe, encode-IsSafe, All-weaken}

abbrev pub encode_pair : Str × Str → Str
encode_pair (k, v) = encode k ++ (b'=' ∷ encode v)

unfoldable pub encode_pairs : List (Str × Str) → Str
unfolding join
encode_pairs pairs = join b'&' (map encode_pair pairs)

All-map {ℓ κ} :
    {A : Type ℓ} {B : Type κ} (P : B → Type 0) (Q : A → Type 0) (f : A → B)
    → ((x : A) → Q x → P (f x))
    → (xs : List A) → All Q xs
    → All P (map f xs)
All-map P Q f g [] h = tt
All-map P Q f g (x ∷ xs) h = (g x h.0, All-map P Q f g xs h.1)

split_pair-append : (a b : Str) → All IsSafe a → split_pair (a ++ (b'=' ∷ b)) ≡ (a, b)
unfolding split_pair
split_pair-append [] b h = refl
split_pair-append (c ∷ a) b h = rw (split_pair-append a b h.1, h.0.no_equals, split_pair) refl

split-join :
    (sep : ℕ) (p : Str) (ps : List Str)
    → All (Avoids sep) (p ∷ ps)
    → split sep (join sep (p ∷ ps)) ≡ p ∷ ps
unfolding join
split-join sep p [] h = split-last sep p h.0
split-join sep p (q ∷ ps) h =
    split-piece sep p (join sep (q ∷ ps)) h.0 ∙ ap (λ l. p ∷ l) (split-join sep q ps h.1)

module _ ⦃utf8 : Utf8Lib⦄ where
  -- A text of bytes in UTF-8.
  pub record IsText (s : Str) : Type 0 where
    pub are_bytes : All (λ c. c < 256) s
    pub valid : utf8.is_utf8 s ≡ true

  abbrev pub IsTextPair : Str × Str → Type 0
  IsTextPair (k, v) = IsText k × IsText v

  param_value-encode_pair :
      (key k v : Str)
      → IsText k
      → IsText v
      → param_value key (encode_pair (k, v)) ≡ (if str_eq k key then some v else none)
  unfolding param_value
  param_value-encode_pair key k v h j =
      rw
        (
          split_pair-append (encode k) (encode v) (encode-IsSafe k h.are_bytes),
          percent_decode-encode k h.are_bytes h.valid,
          percent_decode-encode v j.are_bytes j.valid,
          param_value,
        )
        refl

  find_map-lookup :
      (key : Str) (pairs : List (Str × Str))
      → All IsTextPair pairs
      → find_map (param_value key) (map encode_pair pairs) ≡ lookup key pairs
  unfolding find_map lookup
  find_map-lookup key [] h = refl
  find_map-lookup key ((k, v) ∷ pairs) h =
      ground (arith, param_value-encode_pair key k v h.0.0 h.0.1, find_map-lookup key pairs h.1)

  encode_pair-IsSafe : (p : Str × Str) → IsTextPair p → Avoids b'&' (encode_pair p)
  encode_pair-IsSafe (k, v) (h, j) =
      All-append (λ c. (c == b'&') ≡ false) (encode k) (b'=' ∷ encode v)
        (All-weaken IsSafe _ (λ c s. s.no_ampersand) (encode k) (encode-IsSafe k h.are_bytes))
        (refl, All-weaken IsSafe _ (λ c s. s.no_ampersand) (encode v) (encode-IsSafe v j.are_bytes))

  find_param-lookup :
      (key : Str) (pair : Str × Str) (pairs : List (Str × Str))
      → All IsTextPair (pair ∷ pairs)
      → find_param key (encode_pairs (pair ∷ pairs)) ≡ lookup key (pair ∷ pairs)
  unfolding find_param encode_pairs
  find_param-lookup key pair pairs h =
      ap (find_map (param_value key)) (
        split-join b'&' (encode_pair pair) (map encode_pair pairs)
          (All-map (Avoids b'&') IsTextPair encode_pair encode_pair-IsSafe (pair ∷ pairs) h))
      ∙ find_map-lookup key (pair ∷ pairs) h

  -- In a request whose query is the form encoding of some pairs, at least one: the query parameter
  -- of a key is the value of the first pair with that key, and there is none without such a pair.
  pub query_param-lookup :
      (req : HttpRequest) (key : Str) (pair : Str × Str) (pairs : List (Str × Str))
      → All IsTextPair (pair ∷ pairs)
      → req.query ≡ some (encode_pairs (pair ∷ pairs))
      → query_param req key ≡ lookup key (pair ∷ pairs)
  unfolding query_param
  query_param-lookup req key pair pairs h q =
      rw (q, query_param) (find_param-lookup key pair pairs h)

  encode_pair-ascii : (p : Str × Str) → IsTextPair p → All (λ c. c < 128) (encode_pair p)
  encode_pair-ascii (k, v) (h, j) =
      All-append (λ c. c < 128) (encode k) (b'=' ∷ encode v)
        (All-weaken IsSafe _ (λ c s. s.ascii) (encode k) (encode-IsSafe k h.are_bytes))
        (omega arith, All-weaken IsSafe _ (λ c s. s.ascii) (encode v) (encode-IsSafe v j.are_bytes))

  join-ascii : (ps : List Str) → All (All (λ c. c < 128)) ps → All (λ c. c < 128) (join b'&' ps)
  unfolding join
  join-ascii [] h = tt
  join-ascii (p ∷ []) h = h.0
  join-ascii (p ∷ q ∷ ps) h =
      All-append (λ c. c < 128) p (b'&' ∷ join b'&' (q ∷ ps)) h.0
        (omega arith, join-ascii (q ∷ ps) h.1)

  -- The same of a form whose body is such an encoding.
  pub form_param-lookup :
      (req : HttpRequest) (key : Str) (pair : Str × Str) (pairs : List (Str × Str))
      → All IsTextPair (pair ∷ pairs)
      → req.body ≡ encode_pairs (pair ∷ pairs)
      → form_param req key ≡ lookup key (pair ∷ pairs)
  unfolding form_param encode_pairs
  form_param-lookup req key pair pairs h q =
      let valid = utf8.ascii-is_utf8 (encode_pairs (pair ∷ pairs)) (
        join-ascii (map encode_pair (pair ∷ pairs)) (
          All-map (All (λ c. c < 128)) IsTextPair encode_pair encode_pair-ascii (pair ∷ pairs)
            h)) in
      rw (q, valid, form_param) (find_param-lookup key pair pairs h)

  -- Fields that a client has encoded are read back: for a list of names and values in UTF-8, with
  -- one field at least, the request that has it as its query, and the request that has it as its
  -- body, find under any key the first value of that name, and nothing where there is none.
  pub query_param-form_param-lookup :
      (asked posted : HttpRequest) (key : Str) (pair : Str × Str) (pairs : List (Str × Str))
      → All IsTextPair (pair ∷ pairs)
      → asked.query ≡ some (encode_pairs (pair ∷ pairs))
      → posted.body ≡ encode_pairs (pair ∷ pairs)
      → (query_param asked key ≡ lookup key (pair ∷ pairs))
        × (form_param posted key ≡ lookup key (pair ∷ pairs))
  query_param-form_param-lookup asked posted key pair pairs h q b =
      (query_param-lookup asked key pair pairs h q, form_param-lookup posted key pair pairs h b)
