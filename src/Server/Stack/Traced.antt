-- ===== src/Server/Stack/Traced.antt =====
-- Which of the services answers a request, and under which identifier.
use multithreaded.Base.{
  ◌<◌, ◌≡◌, refl, sym, ◌∙◌, ap, true, false, some, Bool-cases, Option-cases, inl, inr, arith, List,
  [], ◌∷◌, ◌++◌, if◌then◌else◌, none, filter, not,
}
use multithreaded.Base.Float.{F64Lib}
use multithreaded.Base.Text.{Str, bytes, str_eq, str_eq_self, str_eq-eq}
use multithreaded.Http.Request.{HttpRequest}
use multithreaded.Http.Response.{HeaderOp, append, insert, HttpResponse, HttpLib, header, text}
use multithreaded.Http.Response as Response
use multithreaded.Http.Response.Laws.{values_after, values, extra_values}
use multithreaded.Middleware.Concurrency.{service_unavailable}
use multithreaded.Middleware.Concurrency.Service as Concurrency
use multithreaded.Middleware.Logging.{
  HeaderValueLib, x_request_id, request_id, replace_entry, set_header, tagged_request,
  tagged_response,
}
use multithreaded.Middleware.Logging as Logging
use multithreaded.Middleware.RateLimiter.{RateLimiter, check}
use multithreaded.Middleware.RateLimiter.PerAddress.{Check}
use multithreaded.Middleware.RateLimiter.Service.{too_many_requests}
use multithreaded.Middleware.RateLimiter.Service as RateLimiter
use multithreaded.Middleware.Semaphore.{SemaphoreLib}
use multithreaded.Middleware.Service.{Service}
use multithreaded.Server.Stack.{tower_stack}

values_after-insert :
    (name k v : Str) (calls : List HeaderOp) (vs : List Str)
    → values_after vs name (calls ++ insert k v ∷ [])
      ≡ (if str_eq k name then v ∷ [] else values_after vs name calls)
values_after-insert name k v [] vs = refl
values_after-insert name k v (append k' v' ∷ calls) vs = values_after-insert name k v calls _
values_after-insert name k v (insert k' v' ∷ calls) vs = values_after-insert name k v calls _

abbrev pub tag : Str
tag = bytes "x-request-id"

-- The response is the other one, but for the identifier.
pub record IsTagged (id : Str) (r r' : HttpResponse) : Type 0 where
  pub same_status : r'.status ≡ r.status
  pub same_body : r'.body ≡ r.body
  pub identified : values tag r'.headers ≡ id ∷ []
  pub others :
      (name : Str) → str_eq tag name ≡ false → values name r'.headers ≡ values name r.headers

-- The request is the other one, but for the identifier.
pub record IsSeen (id : Str) (req seen : HttpRequest) : Type 0 where
  pub same_method : seen.method ≡ req.method
  pub same_path : seen.path ≡ req.path
  pub same_query : seen.query ≡ req.query
  pub same_body : seen.body ≡ req.body
  pub same_params : seen.path_params ≡ req.path_params
  pub tagged : seen.headers tag ≡ some id
  pub others : (name : Str) → str_eq tag name ≡ false → seen.headers name ≡ req.headers name
  pub tagged_entry : extra_values tag seen.entries ≡ id ∷ []
  pub other_entries :
      (name : Str)
      → str_eq tag name ≡ false
      → extra_values name seen.entries ≡ extra_values name req.entries

-- The identifier is the client's, or else the fresh one.
pub data Identifies (uuid : Str) (req : HttpRequest) (id : Str) : Type 0 where
  given : req.headers tag ≡ some id → Identifies uuid req id
  fresh : req.headers tag ≡ none → id ≡ uuid → Identifies uuid req id

request_id-Identified :
    (uuid : Str) (req : HttpRequest) (id : Str) → Identifies uuid req id → request_id uuid req ≡ id
unfolding request_id x_request_id
request_id-Identified uuid req id (given e) = rw (e, request_id) refl
request_id-Identified uuid req id (fresh e q) = rw (e, request_id) (sym q)

abbrev without : Str → List (Str × Str) → List (Str × Str)
without name = filter (λ e. not (str_eq e.0 name))

extra_values-without :
    (name : Str) (hs : List (Str × Str)) → extra_values name (without name hs) ≡ []
extra_values-without name [] = refl
extra_values-without name ((k, v) ∷ hs) = ground (arith, extra_values-without name hs)

extra_values-without_other :
    (name other : Str) (hs : List (Str × Str))
    → str_eq name other ≡ false
    → extra_values other (without name hs) ≡ extra_values other hs
extra_values-without_other name other [] h = refl
extra_values-without_other name other ((k, v) ∷ hs) h = elim (Bool-cases (str_eq k name)) [
  | inl e ↦
      let q : str_eq k other ≡ false = rw (str_eq-eq k name e) h in
      rw (e, q) (extra_values-without_other name other hs h)
  | inr e ↦ ground (arith, e, extra_values-without_other name other hs h)
]

replace_entry-value :
    (name value : Str) (hs : List (Str × Str))
    → extra_values name (replace_entry name value hs) ≡ value ∷ []
unfolding replace_entry
replace_entry-value name value [] = rw (str_eq_self name) refl
replace_entry-value name value ((k, v) ∷ hs) =
    ground
      (arith, str_eq_self name, extra_values-without name hs, replace_entry-value name value hs)

replace_entry-other :
    (name value other : Str) (hs : List (Str × Str))
    → str_eq name other ≡ false
    → extra_values other (replace_entry name value hs) ≡ extra_values other hs
unfolding replace_entry
replace_entry-other name value other [] h = rw h refl
replace_entry-other name value other ((k, v) ∷ hs) h = elim (Bool-cases (str_eq k name)) [
  | inl e ↦
      let q : str_eq k other ≡ false = rw (str_eq-eq k name e) h in
      rw (e, h, q) (extra_values-without_other name other hs h)
  | inr e ↦ ground (arith, e, replace_entry-other name value other hs h)
]

module _ ⦃lib : HeaderValueLib⦄ where
  tagged_response-IsTagged :
      (id : Str) (r : HttpResponse) → lib.is_value id ≡ true → IsTagged id r (tagged_response id r)
  unfolding tagged_response x_request_id
  tagged_response-IsTagged id r valid =
      rw (valid, tagged_response)
        (record {
          same_status = refl;
          same_body = refl;
          identified = rw (values_after-insert tag tag id r.headers []) (rw (str_eq_self tag) refl);
          others = λ name h. rw (values_after-insert name tag id r.headers []) (rw h refl);
        })

  tagged_request-IsSeen :
      (id : Str) (req : HttpRequest)
      → lib.is_value id ≡ true
      → IsSeen id req (tagged_request id req)
  unfolding tagged_request set_header x_request_id
  tagged_request-IsSeen id req valid =
      rw (valid, tagged_request)
        (record {
          same_method = refl;
          same_path = refl;
          same_query = refl;
          same_body = refl;
          same_params = refl;
          tagged = rw (str_eq_self tag) refl;
          others = λ name h. rw h refl;
          tagged_entry = replace_entry-value tag id req.entries;
          other_entries = λ name h. replace_entry-other tag id name req.entries h;
        })

module _ ⦃http : HttpLib⦄ ⦃values : HeaderValueLib⦄ ⦃f64 : F64Lib⦄ (lib : SemaphoreLib)
    {S : Type 0} where
  open lib use {Semaphore, available_permits}

  -- Who answers, with what of the limiters' and the inner service's state.
  pub data Answered (c : Check) (inner : Service S) (id : Str) (req : HttpRequest)
      (limiter : RateLimiter) (semaphore : Semaphore) (s : S)
      : HttpResponse → RateLimiter → Semaphore → S → Type 0 where
    -- The address is over its rate.
    limited :
        {r : HttpResponse} {limiter' : RateLimiter}
        → check limiter c.ip c.swept c.now ≡ (limiter', false)
        → IsTagged id
            (text
              (header (Response.new 429) (bytes "retry-after") (bytes "1"))
              (bytes "429 Too Many Requests\n"))
            r
        → Answered c inner id req limiter semaphore s r limiter' semaphore s
    -- No permit is left.
    crowded :
        {r : HttpResponse} {limiter' : RateLimiter}
        → check limiter c.ip c.swept c.now ≡ (limiter', true)
        → available_permits semaphore ≡ 0
        → IsTagged id
            (text
              (header (Response.new 503) (bytes "retry-after") (bytes "1"))
              (bytes "503 Service Unavailable\n"))
            r
        → Answered c inner id req limiter semaphore s r limiter' semaphore s
    -- The inner service runs once, on the request with its identifier, and the permit comes back.
    passed :
        {r : HttpResponse} {limiter' : RateLimiter} {semaphore' : Semaphore}
        → (seen : HttpRequest) → check limiter c.ip c.swept c.now ≡ (limiter', true)
        → 0 < available_permits semaphore
        → available_permits semaphore' ≡ available_permits semaphore
        → IsSeen id req seen
        → IsTagged id (inner seen s).0 r
        → Answered c inner id req limiter semaphore s r limiter' semaphore' (inner seen s).1

  -- For a request whose identifier (the client's `x-request-id`, or else the fresh UUID) is a
  -- header value, exactly one service answers: 429 where the address is over its rate, 503 where no permit
  -- is left, and otherwise the inner service, which runs once on the request with its identifier in the place of
  -- any other, and with its method, path, query, body and other headers.
  -- Only in the last case does the inner state change, and then the permit is given back. The rate
  -- limiter counts the request in each case. The answer is that service's, with the same status and
  -- body, exactly one `x-request-id`, which is the identifier, and its other headers.
  pub tower_stack-Answered :
      (uuid : Str) (c : Check) (inner : Service S) (req : HttpRequest) (limiter : RateLimiter)
      (semaphore : Semaphore) (s : S) (id : Str)
      → Identifies uuid req id
      → values.is_value id ≡ true
      → let (r, (limiter', (semaphore', s'))) =
          tower_stack lib uuid c inner req (limiter, (semaphore, s)) in
        Answered c inner id req limiter semaphore s r limiter' semaphore' s'
  unfolding tower_stack Logging.call RateLimiter.call Concurrency.call too_many_requests
      service_unavailable
  tower_stack-Answered uuid c inner req limiter semaphore s id known valid =
      rw (request_id-Identified uuid req id known)
        (elim (Bool-cases ((check limiter c.ip c.swept c.now).1)) [
          | inr e ↦
              rw (e, tower_stack)
                (limited (ap (λ b. ((check limiter c.ip c.swept c.now).0, b)) e)
                  (tagged_response-IsTagged _ too_many_requests valid))
          | inl e ↦ elim (Option-cases (lib.try_acquire_owned semaphore)) [
            | inl n ↦
                rw (e, tower_stack)
                  (rw (n, Concurrency.call)
                    (crowded (ap (λ b. ((check limiter c.ip c.swept c.now).0, b)) e)
                      (lib.try_acquire_none semaphore n)
                      (tagged_response-IsTagged _ service_unavailable valid)))
            | inr (held, q) ↦
                let taken = lib.try_acquire_some semaphore held q in
                rw (e, tower_stack)
                  (rw (q, Concurrency.call)
                    (passed (tagged_request id req)
                      (ap (λ b. ((check limiter c.ip c.swept c.now).0, b)) e) (omega (arith, taken))
                      (lib.available-drop_permit held ∙ sym taken)
                      (tagged_request-IsSeen id req valid) (tagged_response-IsTagged _ _ valid)))
          ]
        ])
