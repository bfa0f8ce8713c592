-- ===== src/Http/Response.antt =====
-- src/http/response.rs. A response is its status, the header calls in the order in which the code
-- makes them, and its body. What hyper's builder makes of the calls is a parameter, `HttpLib`.
pub mod Laws
use multithreaded.Base.{
  ℕ, String, Bool, Option, none, some, List, [], ◌∷◌, ◌++◌, map, if◌then◌else◌, length,
}
use multithreaded.Base.Text.{Str, bytes}
use multithreaded.Base.Decimal.{to_string}

-- `builder.header(k, v)` appends a value; `headers_mut().insert(k, v)` replaces those of its name.
pub data HeaderOp : Type 0 where
  append insert : Str → Str → HeaderOp

-- A buffer, or the chunks of a stream.
pub data HttpBody : Type 0 where
  full : Str → HttpBody
  stream : List Str → HttpBody

pub record HttpResponse : Type 0 where
  pub status : ℕ
  pub headers : List HeaderOp
  pub body : HttpBody

-- hyper's response builder: whether `body` succeeds after the calls, which it does unless a header
-- name or value is malformed.
pub record HttpLib : Type 0 where
  pub accepts : List HeaderOp → Bool

-- SERVER_HEADER
unfoldable pub server_header : Str
server_header = bytes "rust-highperf-server/0.1"

pub record ResponseBuilder : Type 0 where
  pub status : ℕ
  pub extra_headers : List (Str × Str)

abbrev pub new : ℕ → ResponseBuilder
new status = record { status = status; extra_headers = [] }

abbrev pub ok : ResponseBuilder
ok = new 200

abbrev pub bad_request : ResponseBuilder
bad_request = new 400

abbrev pub not_found : ResponseBuilder
not_found = new 404

abbrev pub method_not_allowed : ResponseBuilder
method_not_allowed = new 405

abbrev pub internal_error : ResponseBuilder
internal_error = new 500

abbrev pub header : ResponseBuilder → Str → Str → ResponseBuilder
header b key value = record b { extra_headers = b.extra_headers ++ (key, value) ∷ [] }

-- The three calls that every response makes, then one for each extra header.
unfoldable pub header_calls : Str → ℕ → List (Str × Str) → List HeaderOp
header_calls content_type content_length extra =
    append (bytes "content-type") content_type
    ∷ append (bytes "content-length") (to_string content_length)
    ∷ append (bytes "server") server_header
    ∷ map (λ h. append h.0 h.1) extra

module _ ⦃http : HttpLib⦄ where
  -- The last resort is `Response::new`, which has status 200 and no header.
  unfoldable pub fallback : HttpResponse
  fallback =
      let calls = append (bytes "server") server_header ∷ [] in
      if http.accepts calls
      then record { status = 500; headers = calls; body = full (bytes "Internal Server Error\n") }
      else record { status = 200; headers = []; body = full [] }

  unfoldable pub finish : ℕ → List HeaderOp → HttpBody → HttpResponse
  unfolding fallback
  finish status calls body =
      if http.accepts calls
      then record { status = status; headers = calls; body = body }
      else fallback

  unfoldable pub build : ResponseBuilder → Str → Str → HttpResponse
  unfolding finish
  build b content_type body =
      finish b.status (header_calls content_type (length body) b.extra_headers) (full body)

  unfoldable pub stream_body : ResponseBuilder → Str → HttpBody → ℕ → HttpResponse
  unfolding finish
  stream_body b content_type body content_length =
      finish b.status (header_calls content_type content_length b.extra_headers) body

  unfoldable pub text : ResponseBuilder → Str → HttpResponse
  unfolding build
  text b body = build b (bytes "text/plain; charset=utf-8") body

  unfoldable pub bytes_body : ResponseBuilder → Str → Str → HttpResponse
  unfolding build
  bytes_body b content_type body = build b content_type body

  unfoldable pub empty : ResponseBuilder → HttpResponse
  unfolding build
  empty b = build b (bytes "text/plain; charset=utf-8") []

  -- The argument is what `serde_json::to_vec` makes of the value.
  unfoldable pub json : ResponseBuilder → Option Str → HttpResponse
  unfolding build text
  json b (some vec) = build b (bytes "application/json") vec
  json b none = text internal_error (bytes "Internal Server Error\n")
