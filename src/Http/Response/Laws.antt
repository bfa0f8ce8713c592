-- ===== src/Http/Response/Laws.antt =====
-- What every response of `ResponseBuilder` carries.
use mathlib.Core.List.{append-nil, append_assoc}
use multithreaded.Base.{
  ◌∙◌, sym, ℕ, ◌≡◌, refl, true, some, List, [], ◌∷◌, ◌++◌, map, arith, if◌then◌else◌, length, ◌≤◌,
}
use multithreaded.Base.Text.{Str, bytes, str_eq}
use multithreaded.Base.Decimal.{parse, parse-to_string, to_string}
use multithreaded.Http.Response.{
  HeaderOp, append, insert, full, HttpLib, ResponseBuilder, header_calls, build, server_header,
}

-- The values that the calls leave under a name, in order.
abbrev pub values_after : List Str → Str → List HeaderOp → List Str
values_after vs name [] = vs
values_after vs name (append k v ∷ calls) =
    values_after (if str_eq k name then vs ++ v ∷ [] else vs) name calls
values_after vs name (insert k v ∷ calls) =
    values_after (if str_eq k name then v ∷ [] else vs) name calls

abbrev pub values : Str → List HeaderOp → List Str
values name calls = values_after [] name calls

-- The values that a list of extra headers has under a name.
abbrev pub extra_values : Str → List (Str × Str) → List Str
extra_values name [] = []
extra_values name ((k, v) ∷ hs) =
    if str_eq k name then v ∷ extra_values name hs else extra_values name hs

pub values_after-extra :
    (vs : List Str) (name : Str) (hs : List (Str × Str))
    → values_after vs name (map (λ h. append h.0 h.1) hs) ≡ vs ++ extra_values name hs
values_after-extra vs name [] = sym (append-nil vs)
values_after-extra vs name ((k, v) ∷ hs) = ground (
  arith,
  values_after-extra (vs ++ v ∷ []) name hs,
  values_after-extra vs name hs,
  append_assoc vs (v ∷ []) (extra_values name hs),
)

-- The three headers of a response of its own, which precede the extra ones.
abbrev pub own_headers : Str → ℕ → List (Str × Str)
own_headers content_type n =
    (bytes "content-type", content_type)
    ∷ (bytes "content-length", to_string n)
    ∷ (bytes "server", bytes "rust-highperf-server/0.1")
    ∷ []

values-header_calls :
    (name content_type : Str) (n : ℕ) (extra : List (Str × Str))
    → values name (header_calls content_type n extra)
      ≡ extra_values name (own_headers content_type n ++ extra)
unfolding header_calls server_header
values-header_calls name content_type n extra =
    values_after-extra [] name (own_headers content_type n ++ extra)

own_headers-length :
    (content_type : Str) (n : ℕ) (extra : List (Str × Str))
    → extra_values (bytes "content-length") (own_headers content_type n ++ extra)
      ≡ to_string n ∷ extra_values (bytes "content-length") extra
unfolding bytes str_eq
own_headers-length content_type n extra = refl

module _ ⦃http : HttpLib⦄ where
  -- Where the calls are accepted, the status and the body are the builder's, and under every name
  -- stand, in order, the values of these headers: `content-type` with the type, `content-length` with
  -- the number of bytes of the body, `server` with `rust-highperf-server/0.1`, and then the extra
  -- headers. An extra header never replaces one of the first three.
  pub build-values :
      (b : ResponseBuilder) (content_type body name : Str)
      → http.accepts (header_calls content_type (length body) b.extra_headers) ≡ true
      → ((build b content_type body).status ≡ b.status)
        × ((build b content_type body).body ≡ full body)
        × (values name (build b content_type body).headers
            ≡ extra_values name (own_headers content_type (length body) ++ b.extra_headers))
  unfolding build
  build-values b content_type body name h =
      rw (h, build)
        (refl, refl, values-header_calls name content_type (length body) b.extra_headers)

  -- Where the calls are accepted and no extra header is called `content-length`: the response has
  -- one content length, and it reads back as the length of the body, at every type that holds it.
  pub build-length :
      (b : ResponseBuilder) (content_type body : Str) (max : ℕ)
      → http.accepts (header_calls content_type (length body) b.extra_headers) ≡ true
      → extra_values (bytes "content-length") b.extra_headers ≡ []
      → length body ≤ max
      → (v : Str) × (values (bytes "content-length") (build b content_type body).headers ≡ v ∷ [])
        × (parse max v ≡ some (length body))
  build-length b content_type body max h e k =
      (to_string (length body), one, parse-to_string max (length body) k)
    where
      one :
          values (bytes "content-length") (build b content_type body).headers
          ≡ to_string (length body) ∷ []
      one =
          (build-values b content_type body (bytes "content-length") h).2
          ∙ rw (own_headers-length content_type (length body) b.extra_headers, e) refl
