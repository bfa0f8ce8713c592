-- ===== src/Proxy/Relayed.antt =====
-- What passes between client and upstream.
use multithreaded.Base.{
  ℕ, ◌≡◌, refl, sym, ◌∙◌, ap, Bool, true, false, ◌||◌, Option, none, some, List, [], ◌∷◌, ◌++◌,
  if◌then◌else◌, length, arith, any, map, ◌≤◌, ◌<◌, ◌⊎◌, Bool-cases, inl, inr, append_assoc,
  append-nil,
}
use multithreaded.Base.Text.{Str, bytes, str_eq, str_eq-eq}
use multithreaded.Base.Decimal.{to_string}
use multithreaded.Http.Request.{HttpRequest}
use multithreaded.Http.Response.{HeaderOp, append, full, HttpResponse, HttpLib, server_header}
use multithreaded.Http.Response.Laws.{
  values_after, values, extra_values, values_after-extra, own_headers,
}
use multithreaded.Proxy.{
  is_hop_by_hop, hop_by_hop, UpstreamResponse, ProxyLib, forwarded, relayed, relayed_status,
  upstream_request, bad_gateway, assembled_calls, assembled, after_head, translated, proxy_request,
}

-- The headers of one connection only.
abbrev pub connection_names : List Str
connection_names =
    bytes "connection"
    ∷ bytes "keep-alive"
    ∷ bytes "proxy-authenticate"
    ∷ bytes "proxy-authorization"
    ∷ bytes "te"
    ∷ bytes "trailer"
    ∷ bytes "transfer-encoding"
    ∷ bytes "upgrade"
    ∷ []

pub of_connection : Str → Bool
of_connection name = any (λ n. str_eq n name) connection_names

is_hop_by_hop-of_connection : (name : Str) → is_hop_by_hop name ≡ of_connection name
unfolding is_hop_by_hop hop_by_hop of_connection
is_hop_by_hop-of_connection name = refl

-- Under a hop-by-hop name nothing is relayed, under any other name all values are, in order.
abbrev pub relayed_values : Str → List (Str × Str) → List Str
relayed_values name hs = if of_connection name then [] else extra_values name hs

-- Under the names that are not forwarded nothing is, under any other all values are, in order.
abbrev pub forwarded_values : Str → List (Str × Str) → List Str
forwarded_values name hs =
    if str_eq name (bytes "host") || of_connection name then [] else extra_values name hs

same_name : (k name : Str) → str_eq k name ≡ true → (extra : Str → Bool) → extra k ≡ extra name
same_name k name e extra = ap extra (str_eq-eq k name e)

forwarded-values :
    (name : Str) (hs : List (Str × Str))
    → extra_values name (forwarded hs) ≡ forwarded_values name hs
unfolding forwarded
forwarded-values name [] = ground arith
forwarded-values name ((k, v) ∷ hs) = elim (Bool-cases (str_eq k name)) [
  | inl e ↦ ground (
    arith,
    same_name k name e (λ n. str_eq n (bytes "host") || is_hop_by_hop n),
    is_hop_by_hop-of_connection name,
    forwarded-values name hs,
  )
  | inr e ↦ ground (arith, forwarded-values name hs)
]

relayed_values-skip :
    (name k v : Str) (hs : List (Str × Str))
    → is_hop_by_hop k ≡ true
    → relayed_values name ((k, v) ∷ hs) ≡ relayed_values name hs
relayed_values-skip name k v hs h = elim (Bool-cases (str_eq k name)) [
  | inl e ↦ ground (arith, same_name k name e is_hop_by_hop, is_hop_by_hop-of_connection name)
  | inr e ↦ ground arith
]

relayed_values-keep :
    (vs : List Str) (name k v : Str) (hs : List (Str × Str))
    → is_hop_by_hop k ≡ false
    → (if str_eq k name then vs ++ v ∷ [] else vs) ++ relayed_values name hs
      ≡ vs ++ relayed_values name ((k, v) ∷ hs)
relayed_values-keep vs name k v hs h = elim (Bool-cases (str_eq k name)) [
  | inl e ↦
      let kept : of_connection name ≡ false =
        sym (is_hop_by_hop-of_connection name) ∙ (sym (same_name k name e is_hop_by_hop) ∙ h) in
      rw (e, kept) (append_assoc vs (v ∷ []) (extra_values name hs))
  | inr e ↦ rw e refl
]

-- The calls for the upstream's headers leave the relayed values.
relayed-values :
    (vs : List Str) (name : Str) (hs : List (Str × Str)) (rest : List HeaderOp)
    → values_after vs name (relayed hs ++ rest)
      ≡ values_after (vs ++ relayed_values name hs) name rest
unfolding relayed
relayed-values vs name [] rest = elim (Bool-cases (of_connection name)) [
  | inl e ↦ rw (e, append-nil vs) refl
  | inr e ↦ rw (e, append-nil vs) refl
]
relayed-values vs name ((k, v) ∷ hs) rest = elim (Bool-cases (is_hop_by_hop k)) [
  | inl e ↦ rw (e, relayed_values-skip name k v hs e) (relayed-values vs name hs rest)
  | inr e ↦ rw e (
      relayed-values (if str_eq k name then vs ++ v ∷ [] else vs) name hs rest
      ∙ ap (λ l. values_after l name rest) (relayed_values-keep vs name k v hs e))
]

-- The headers that the proxy adds itself.
abbrev pub stamped : ℕ → List (Str × Str)
stamped n =
    (bytes "content-length", to_string n) ∷ (bytes "server", bytes "rust-highperf-server/0.1") ∷ []

-- 502 with a text that has the reason, unless hyper refuses its headers.
pub record IsBadGateway ⦃http : HttpLib⦄ (reason : Str) (r : HttpResponse) : Type 0 where
  pub made :
      let body = bytes "502 Bad Gateway: " ++ (reason ++ bytes "\n") in
      let own = own_headers (bytes "text/plain; charset=utf-8") (length body) in
      http.accepts (map (λ h. append h.0 h.1) own) ≡ true
      → (r.status ≡ 502)
        × (r.body ≡ full body)
        × ((name : Str) → values name r.headers ≡ extra_values name own)

-- The ways in which a request is answered, given whether its method is one and what sending it
-- comes to.
pub data Relays ⦃http : HttpLib⦄ (sent : Option UpstreamResponse) (is_method : Bool)
    : HttpResponse → Type 0 where
  bad_method :
      {r : HttpResponse}
      → is_method ≡ false
      → IsBadGateway (bytes "invalid HTTP method") r
      → Relays sent is_method r
  unreachable :
      {r : HttpResponse}
      → is_method ≡ true
      → sent ≡ none
      → IsBadGateway (bytes "upstream unreachable") r
      → Relays sent is_method r
  unreadable :
      (upstream : UpstreamResponse) {r : HttpResponse}
      → is_method ≡ true
      → sent ≡ some upstream
      → upstream.body ≡ none
      → IsBadGateway (bytes "upstream body read failed") r
      → Relays sent is_method r
  malformed :
      (upstream : UpstreamResponse) (body : Str) {r : HttpResponse}
      → is_method ≡ true
      → sent ≡ some upstream
      → upstream.body ≡ some body
      → http.accepts (assembled_calls upstream body) ≡ false
      → IsBadGateway (bytes "internal proxy error") r
      → Relays sent is_method r
  passed_on :
      (upstream : UpstreamResponse) (body : Str) {r : HttpResponse}
      → is_method ≡ true
      → sent ≡ some upstream
      → upstream.body ≡ some body
      → (100 ≤ upstream.status → upstream.status < 1000 → r.status ≡ upstream.status)
        × ((upstream.status < 100) ⊎ (1000 ≤ upstream.status) → r.status ≡ 502)
      → r.body ≡ full body
      → ((name : Str)
          → values name r.headers
            ≡ relayed_values name upstream.headers ++ extra_values name (stamped (length body)))
      → Relays sent is_method r

relayed_status-kept :
    (status : ℕ)
    → (100 ≤ status → status < 1000 → relayed_status status ≡ status)
      × ((status < 100) ⊎ (1000 ≤ status) → relayed_status status ≡ 502)
unfolding relayed_status
relayed_status-kept status = (λ h k. ground arith, λ h. ground arith)

module _ ⦃http : HttpLib⦄ where
  bad_gateway-IsBadGateway : (reason : Str) → IsBadGateway reason (bad_gateway reason)
  unfolding bad_gateway server_header
  bad_gateway-IsBadGateway reason = record {
    made = λ h.
        rw (h, bad_gateway)
          (
            refl,
            refl,
            λ name. values_after-extra [] name (
                own_headers (bytes "text/plain; charset=utf-8")
                  (length (bytes "502 Bad Gateway: " ++ (reason ++ bytes "\n")))),
          );
  }

  assembled-Relays :
      (upstream : UpstreamResponse) (body : Str)
      → upstream.body ≡ some body
      → Relays (some upstream) true (assembled upstream body)
  unfolding assembled assembled_calls server_header
  assembled-Relays upstream body e =
      elim (Bool-cases (http.accepts (assembled_calls upstream body))) [
        | inl a ↦
            rw (a, assembled)
              (passed_on upstream body refl refl e (relayed_status-kept upstream.status) refl
                (λ name.
                  relayed-values [] name upstream.headers _
                  ∙ values_after-extra (relayed_values name upstream.headers) name
                      (stamped (length body))))
        | inr a ↦
            rw (a, assembled) (malformed upstream body refl refl e a (bad_gateway-IsBadGateway _))
      ]

  after_head-Relays :
      (upstream : UpstreamResponse) (o : Option Str)
      → upstream.body ≡ o
      → Relays (some upstream) true (after_head upstream o)
  unfolding after_head
  after_head-Relays upstream none e = unreadable upstream refl refl e (bad_gateway-IsBadGateway _)
  after_head-Relays upstream (some body) e = assembled-Relays upstream body e

  translated-Relays : (sent : Option UpstreamResponse) → Relays sent true (translated sent)
  unfolding translated
  translated-Relays none = unreachable refl refl (bad_gateway-IsBadGateway _)
  translated-Relays (some upstream) = after_head-Relays upstream upstream.body refl

  -- What reqwest is given to send has the client's method and body, and among its headers, under
  -- `host` and the eight hop-by-hop names, no header, and under any other the client's values in
  -- order. The client gets 502 with the reason (where hyper takes the headers of that answer) if the
  -- method is none, the upstream cannot be reached, its body cannot be read, or its headers are
  -- malformed. Else it gets the upstream's status, or 502 for one that has not three digits, and its
  -- body, under hop-by-hop names no header of the upstream, and under any other all its values; a
  -- length and a server name are added to them, also where the upstream sent its own.
  pub proxy_request-Relays :
      ⦃proxy : ProxyLib⦄
      → (req : HttpRequest) (upstream_base : Str) (prefix : Option Str)
      → let sent = upstream_request req upstream_base prefix in
        (sent.method ≡ req.method)
        × (sent.body ≡ req.body)
        × ((name : Str) → extra_values name sent.headers ≡ forwarded_values name req.entries)
        × Relays
            (proxy.send sent)
            (proxy.is_method req.method)
            (proxy_request req upstream_base prefix)
  unfolding proxy_request upstream_request
  proxy_request-Relays ⦃proxy⦄ req upstream_base prefix = (
    refl,
    refl,
    λ name. forwarded-values name req.entries,
    elim (Bool-cases (proxy.is_method req.method)) [
      | inl e ↦
          rw (e, proxy_request)
            (translated-Relays (proxy.send (upstream_request req upstream_base prefix)))
      | inr e ↦ rw (e, proxy_request) (bad_method refl (bad_gateway-IsBadGateway _))
    ],
  )
