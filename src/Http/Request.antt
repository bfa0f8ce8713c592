-- ===== src/Http/Request.antt =====
-- src/http/request.rs: a request with its body collected.
pub mod Encoding
pub mod Safe
pub mod Params
use multithreaded.Base.{
  ℕ, ◌+◌, ◌-◌, ◌*◌, ◌<◌, ◌≡◌, Bool, true, false, ◌&&◌, Option, none, some, List, [], ◌∷◌, map, All,
  if◌then◌else◌, leb, ◌==◌,
}
use multithreaded.Base.Text.{Str, lookup, str_eq, split, find_map}

-- A method by its name. Of hyper's `Uri` the code reads the path and the query; of its `HeaderMap`
-- the value of a name, where that is text (`headers`), and the entries in order (`entries`).
pub record HttpRequest : Type 0 where
  pub method : Str
  pub path : Str
  pub query : Option Str
  pub headers : Str → Option Str
  pub entries : List (Str × Str)
  pub body : Str
  pub path_params : List (Str × Str)

-- A request from the head of another, whose body is not read.
abbrev pub from_parts : HttpRequest → Str → HttpRequest
from_parts parts body = record parts { body = body; path_params = [] }

unfoldable pub path_param : HttpRequest → Str → Option Str
path_param req key = lookup key req.path_params

-- The standard library's UTF-8: `from_utf8` succeeds, and `from_utf8_lossy`.
pub record Utf8Lib : Type 0 where
  pub is_utf8 : Str → Bool
  pub from_utf8_lossy : Str → Str
  pub ascii-is_utf8 : (s : Str) → All (λ c. c < 128) s → is_utf8 s ≡ true

-- `char::to_digit(16)`
unfoldable pub to_digit : ℕ → Option ℕ
to_digit c =
    if leb b'0' c && leb c b'9'
    then some (c - b'0')
    else if leb b'a' c && leb c b'f'
    then some (c - b'a' + 10)
    else if leb b'A' c && leb c b'F'
    then some (c - b'A' + 10)
    else none

-- The byte that `%` and two hexadecimal digits stand for. Of `(h << 4) | l` the two parts have no
-- bit in common.
unfoldable pub escaped : ℕ → ℕ → ℕ → Option ℕ
unfolding to_digit
escaped c hi lo =
    if c == b'%'
    then elim (to_digit hi) [
      | none ↦ none
      | some h ↦ elim (to_digit lo) [ none ↦ none | some l ↦ some (h * 16 + l) ]
    ]
    else none

-- The loop over the bytes: an escape needs two bytes behind the `%`.
unfoldable pub decode_loop : Str → Str
unfolding escaped
decode_loop [] = []
decode_loop (c ∷ []) = c ∷ []
decode_loop (c ∷ d ∷ []) = c ∷ d ∷ []
decode_loop (c ∷ hi ∷ lo ∷ s) = elim (escaped c hi lo) [
  | some byte ↦ byte ∷ decode_loop s
  | none ↦ c ∷ decode_loop (hi ∷ lo ∷ s)
]

-- `replace('+', " ")`
abbrev pub unplus : ℕ → ℕ
unplus c = if c == b'+' then b' ' else c

-- `splitn(2, '=')`, and the empty text where there is no second part.
unfoldable pub split_pair : Str → Str × Str
split_pair [] = ([], [])
split_pair (c ∷ s) = let (k, v) = split_pair s in if c == b'=' then ([], s) else (c ∷ k, v)

module _ ⦃utf8 : Utf8Lib⦄ where
  unfoldable pub percent_decode : Str → Str
  unfolding decode_loop
  percent_decode s =
      let out = decode_loop (map unplus s) in
      if utf8.is_utf8 out then out else utf8.from_utf8_lossy out

  -- The closure of `query_param` and `form_param`.
  unfoldable pub param_value : Str → Str → Option Str
  unfolding percent_decode split_pair
  param_value key pair =
      let (k, v) = split_pair pair in
      if str_eq (percent_decode k) key then some (percent_decode v) else none

  unfoldable pub find_param : Str → Str → Option Str
  unfolding param_value
  find_param key s = find_map (param_value key) (split b'&' s)

  unfoldable pub query_param : HttpRequest → Str → Option Str
  unfolding find_param
  query_param req key = elim (req.query) [ none ↦ none | some q ↦ find_param key q ]

  unfoldable pub form_param : HttpRequest → Str → Option Str
  unfolding find_param
  form_param req key = if utf8.is_utf8 req.body then find_param key req.body else none
