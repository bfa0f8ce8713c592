-- ===== src/Middleware/Logging.antt =====
-- src/middleware/logging.rs, without the line that it logs.
use multithreaded.Base.{Bool, none, some, List, [], ◌∷◌, ◌++◌, if◌then◌else◌, filter, not}
use multithreaded.Base.Text.{Str, bytes, str_eq}
use multithreaded.Http.Request.{HttpRequest}
use multithreaded.Http.Response.{insert, HttpResponse}
use multithreaded.Middleware.Service.{Service}

-- `HeaderValue::from_str` succeeds.
pub record HeaderValueLib : Type 0 where
  pub is_value : Str → Bool

unfoldable pub x_request_id : Str
x_request_id = bytes "x-request-id"

-- The client's identifier, or the fresh one.
unfoldable pub request_id : Str → HttpRequest → Str
request_id uuid req = elim (req.headers x_request_id) [ none ↦ uuid | some id ↦ id ]

-- `headers_mut().insert` on a request: the value replaces those of its name, in place.
unfoldable pub replace_entry : Str → Str → List (Str × Str) → List (Str × Str)
replace_entry name value [] = (name, value) ∷ []
replace_entry name value ((k, v) ∷ entries) =
    let rest = replace_entry name value entries in
    if str_eq k name
    then (name, value) ∷ filter (λ e. not (str_eq e.0 name)) entries
    else (k, v) ∷ rest

unfoldable pub set_header : Str → Str → HttpRequest → HttpRequest
unfolding replace_entry
set_header name value req = record req {
  headers = λ key. if str_eq name key then some value else req.headers key;
  entries = replace_entry name value req.entries;
}

module _ ⦃values : HeaderValueLib⦄ where
  unfoldable pub tagged_request : Str → HttpRequest → HttpRequest
  unfolding set_header
  tagged_request id req = if values.is_value id then set_header x_request_id id req else req

  unfoldable pub tagged_response : Str → HttpResponse → HttpResponse
  tagged_response id response =
      if values.is_value id
      then record response { headers = response.headers ++ insert x_request_id id ∷ [] }
      else response

  -- `LoggingService::call`, run to its end with the service behind it.
  unfoldable pub call : {S : Type 0} → Str → Service S → Service S
  unfolding request_id tagged_request tagged_response
  call uuid inner req s =
      let id = request_id uuid req in
      let (response, s') = inner (tagged_request id req) s in (tagged_response id response, s')
