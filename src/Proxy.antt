-- ===== src/Proxy.antt =====
-- src/proxy/mod.rs. The crate reqwest and the upstream are an argument.
pub mod Relayed
use multithreaded.Base.{
  ℕ, Bool, true, false, ◌&&◌, ◌||◌, not, Option, none, some, List, [], ◌∷◌, ◌++◌, map, any, filter,
  if◌then◌else◌, ◌==◌, leb, ltb, length,
}
use multithreaded.Base.Text.{Str, bytes, is_empty, str_eq, strip_prefix}
use multithreaded.Base.Decimal.{to_string}
use multithreaded.Http.Request.{HttpRequest}
use multithreaded.Http.Response.{HeaderOp, append, full, HttpResponse, HttpLib, server_header}

-- HOP_BY_HOP
unfoldable pub hop_by_hop : List Str
hop_by_hop =
    bytes "connection"
    ∷ bytes "keep-alive"
    ∷ bytes "proxy-authenticate"
    ∷ bytes "proxy-authorization"
    ∷ bytes "te"
    ∷ bytes "trailer"
    ∷ bytes "transfer-encoding"
    ∷ bytes "upgrade"
    ∷ []

-- `HOP_BY_HOP.contains(&name)`
unfoldable pub is_hop_by_hop : Str → Bool
is_hop_by_hop name = any (λ h. str_eq h name) hop_by_hop

pub record UpstreamRequest : Type 0 where
  pub method : Str
  pub target : Str
  pub headers : List (Str × Str)
  pub body : Str

-- An answer: its body is read after its head, and reading it can fail.
pub record UpstreamResponse : Type 0 where
  pub status : ℕ
  pub headers : List (Str × Str)
  pub body : Option Str

-- `Method::from_bytes` succeeds, and what sending a request comes to: `none` is an error.
pub record ProxyLib : Type 0 where
  pub is_method : Str → Bool
  pub send : UpstreamRequest → Option UpstreamResponse

-- `trim_end_matches('/')`
unfoldable pub trim_slashes : Str → Str
trim_slashes [] = []
trim_slashes (c ∷ s) =
    let rest = trim_slashes s in if c == b'/' && is_empty rest then [] else c ∷ rest

-- The path with the prefix taken off, where it has that prefix.
unfoldable pub effective_path : Option Str → Str → Str
effective_path none path = path
effective_path (some prefix) path = elim (strip_prefix prefix path) [
  | none ↦ path
  | some rest ↦ rest
]

unfoldable pub target_url : Str → Option Str → Str → Option Str → Str
unfolding trim_slashes effective_path
target_url upstream_base prefix path none = trim_slashes upstream_base ++ effective_path prefix path
target_url upstream_base prefix path (some q) =
    trim_slashes upstream_base ++ (effective_path prefix path ++ (b'?' ∷ q))

-- The loop over the request's headers.
unfoldable pub forwarded : List (Str × Str) → List (Str × Str)
forwarded [] = []
forwarded ((name, value) ∷ hs) =
    if str_eq name (bytes "host") || is_hop_by_hop name
    then forwarded hs
    else (name, value) ∷ forwarded hs

-- The loop over the upstream's headers.
unfoldable pub relayed : List (Str × Str) → List HeaderOp
relayed [] = []
relayed ((name, value) ∷ hs) =
    if is_hop_by_hop name then relayed hs else append name value ∷ relayed hs

-- `StatusCode::from_u16(..).unwrap_or(BAD_GATEWAY)`: a status has three digits.
unfoldable pub relayed_status : ℕ → ℕ
relayed_status status = if leb 100 status && ltb status 1000 then status else 502

unfoldable pub upstream_request : HttpRequest → Str → Option Str → UpstreamRequest
unfolding target_url
upstream_request req upstream_base prefix = record {
  method = req.method;
  target = target_url upstream_base prefix req.path req.query;
  headers = forwarded req.entries;
  body = req.body;
}

-- The header calls for an answer with its body.
unfoldable pub assembled_calls : UpstreamResponse → Str → List HeaderOp
unfolding relayed
assembled_calls upstream body =
    relayed upstream.headers
    ++ (append (bytes "content-length") (to_string (length body))
        ∷ append (bytes "server") server_header
        ∷ [])

module _ ⦃http : HttpLib⦄ where
  unfoldable pub bad_gateway : Str → HttpResponse
  bad_gateway reason =
      let body = bytes "502 Bad Gateway: " ++ (reason ++ bytes "\n") in
      let calls =
        append (bytes "content-type") (bytes "text/plain; charset=utf-8")
        ∷ append (bytes "content-length") (to_string (length body))
        ∷ append (bytes "server") server_header
        ∷ [] in
      if http.accepts calls
      then record { status = 502; headers = calls; body = full body }
      else record { status = 200; headers = []; body = full [] }

  -- With the body read.
  unfoldable pub assembled : UpstreamResponse → Str → HttpResponse
  unfolding assembled_calls
  assembled upstream body =
      let calls = assembled_calls upstream body in
      if http.accepts calls
      then record { status = relayed_status upstream.status; headers = calls; body = full body }
      else bad_gateway (bytes "internal proxy error")

  unfoldable pub after_head : UpstreamResponse → Option Str → HttpResponse
  unfolding assembled
  after_head upstream none = bad_gateway (bytes "upstream body read failed")
  after_head upstream (some body) = assembled upstream body

  unfoldable pub translated : Option UpstreamResponse → HttpResponse
  unfolding after_head
  translated none = bad_gateway (bytes "upstream unreachable")
  translated (some upstream) = after_head upstream upstream.body

  unfoldable pub proxy_request : ⦃proxy : ProxyLib⦄ → HttpRequest → Str → Option Str → HttpResponse
  unfolding translated
  proxy_request ⦃proxy⦄ req upstream_base prefix =
      let answer = translated (proxy.send (upstream_request req upstream_base prefix)) in
      if proxy.is_method req.method then answer else bad_gateway (bytes "invalid HTTP method")
