-- ===== src/Tests/Parsing.antt =====
-- src/http/request.rs at concrete texts. Only ASCII counts as UTF-8 here.
use multithreaded.Base.{◌<◌, ◌≡◌, refl, Bool, true, ◌&&◌, none, some, [], ◌∷◌, All, ltb, arith}
use multithreaded.Base.Text.{Str, bytes, lookup}
use multithreaded.Http.Request.{HttpRequest, Utf8Lib, percent_decode, query_param, form_param}
use multithreaded.Http.Request.Params.{
  encode_pairs, IsText, IsTextPair, query_param-form_param-lookup,
}

abbrev is_ascii : Str → Bool
is_ascii [] = true
is_ascii (c ∷ s) = ltb c 128 && is_ascii s

is_ascii-All : (s : Str) → All (λ c. c < 128) s → is_ascii s ≡ true
is_ascii-All [] h = refl
is_ascii-All (c ∷ s) h = ground (arith, is_ascii-All s h.1)

instance abbrev ascii : Utf8Lib
ascii = record { is_utf8 = is_ascii; from_utf8_lossy = λ s. s; ascii-is_utf8 = is_ascii-All }

decoded : percent_decode (bytes "a%20b+c%2") ≡ bytes "a b c%2"
unfolding percent_decode bytes
decoded = refl

are_bytes : (s : Str) → is_ascii s ≡ true → All (λ c. c < 256) s
are_bytes [] h = tt
are_bytes (c ∷ s) h = (ground arith, are_bytes s (ground arith))

text : (s : Str) → is_ascii s ≡ true → IsText s
text s h = record { are_bytes = are_bytes s h; valid = h }

abbrev csrf : Str × Str
csrf = (bytes "csrf", bytes "a=b&c")

abbrev name : Str × Str
name = (bytes "full name", bytes "J. Doe")

texts : All IsTextPair (csrf ∷ name ∷ [])
unfolding bytes
texts = ((text _ refl, text _ refl), ((text _ refl, text _ refl), tt))

abbrev request : HttpRequest
request = record {
  method = bytes "POST";
  path = bytes "/items";
  query = some (encode_pairs (csrf ∷ name ∷ []));
  headers = λ header. none;
  entries = [];
  body = encode_pairs (csrf ∷ name ∷ []);
  path_params = [];
}

query_param-form_param-lookup_example :
    (query_param request (bytes "full name") ≡ lookup (bytes "full name") (csrf ∷ name ∷ []))
    × (form_param request (bytes "full name") ≡ lookup (bytes "full name") (csrf ∷ name ∷ []))
query_param-form_param-lookup_example =
    query_param-form_param-lookup request request (bytes "full name") csrf (name ∷ []) texts refl
      refl
