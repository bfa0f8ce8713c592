-- ===== src/Server/Connection/Effect.antt =====
-- What the service does with one request.
use multithreaded.Base.{
  ℕ, ◌≡◌, refl, Bool, true, false, Option, none, some, List, [], ◌∷◌, ltb, length, Bool-cases, inl,
  inr, ◌⊎◌, ◌<◌, ◌≤◌, arith,
}
use multithreaded.Base.Text.{Str, bytes}
use multithreaded.Http.Request.{HttpRequest, from_parts}
use multithreaded.Http.Response.{HttpResponse, HttpLib, text, empty}
use multithreaded.Http.Response as Response
use multithreaded.Metrics.{Metrics, up, down}
use multithreaded.Server.Connection.{
  declared_length, exceeds, entered, counted, payload_too_large, processing_timeout, respond, Timed,
  collected, inner,
}

abbrev pub too_long : ℕ → Option Str → Bool
too_long max_body none = false
too_long max_body (some body) = ltb max_body (length body)

-- The service's steps on the counters: the entry, and one of two ends, unless hyper drops the future
-- at one of its awaits, when the connection ends before the answer.
pub data Event : Type 0 where
  start refuse abandon : Event
  answer : Option HttpResponse → Event

module _ ⦃http : HttpLib⦄ where
  unfoldable pub apply : Metrics → Event → Metrics
  apply m start = entered m
  apply m refuse = m
  apply m abandon = m
  apply m (answer a) = (respond a m).1

  unfoldable pub apply_all : Metrics → List Event → Metrics
  unfolding apply
  apply_all m [] = m
  apply_all m (e ∷ es) = apply_all (apply m e) es

-- The two counters of the entry.
abbrev pub entry : Metrics → Metrics
entry m = record m { requests_total = up m.requests_total; requests_active = up m.requests_active }

-- The counters after a request that is answered with `status`, of which `timeouts` timed out.
pub record IsCounted (status timeouts : ℕ) (m m' : Metrics) : Type 0 where
  pub total : m'.requests_total ≡ up m.requests_total
  pub active : m'.requests_active ≡ down (up m.requests_active)
  pub timed_out : m'.timed_out ≡ timeouts
  pub below_300 : status < 300 → m'.responses_2xx ≡ up m.responses_2xx
  pub from_300 : 300 ≤ status → status < 500 → m'.responses_4xx ≡ up m.responses_4xx
  pub from_500 : 500 ≤ status → m'.responses_5xx ≡ up m.responses_5xx
  pub one_class :
      ((m'.responses_2xx ≡ m.responses_2xx) × (m'.responses_4xx ≡ m.responses_4xx))
      ⊎ ((m'.responses_2xx ≡ m.responses_2xx) × (m'.responses_5xx ≡ m.responses_5xx))
      ⊎ ((m'.responses_4xx ≡ m.responses_4xx) × (m'.responses_5xx ≡ m.responses_5xx))

counted-IsCounted :
    (status timeouts : ℕ) (m : Metrics)
    → let entry = record m {
      requests_total = up m.requests_total;
      requests_active = up m.requests_active;
      timed_out = timeouts;
    } in
      IsCounted status timeouts m (counted status entry)
unfolding counted
counted-IsCounted status timeouts m = elim (Bool-cases (ltb status 300)) [
  | inl e ↦
      rw (e, counted)
        (record {
          total = refl;
          active = refl;
          timed_out = refl;
          below_300 = λ h. refl;
          from_300 = λ h k. absurd (ground (arith, e));
          from_500 = λ h. absurd (ground (arith, e));
          one_class = inr (inr (refl, refl));
        })
  | inr e ↦ elim (Bool-cases (ltb status 500)) [
    | inl f ↦
        rw (e, f, counted)
          (record {
            total = refl;
            active = refl;
            timed_out = refl;
            below_300 = λ h. absurd (ground (arith, e));
            from_300 = λ h k. refl;
            from_500 = λ h. absurd (ground (arith, f));
            one_class = inr (inl (refl, refl));
          })
    | inr f ↦
        rw (e, f, counted)
          (record {
            total = refl;
            active = refl;
            timed_out = refl;
            below_300 = λ h. absurd (ground (arith, e));
            from_300 = λ h k. absurd (ground (arith, f));
            from_500 = λ h. refl;
            one_class = inl (refl, refl);
          })
  ]
]

module _ ⦃http : HttpLib⦄ {S : Type 0} (max_body : ℕ) (dispatch : Timed S) where
  -- The body is within the limit, and so is its declared length.
  pub record IsAccepted (body : Option Str) (req : HttpRequest) (b : Str) : Type 0 where
    pub declared : exceeds (declared_length req) max_body ≡ false
    pub read : body ≡ some b
    pub short : length b ≤ max_body

  -- The four ways in which a request ends.
  pub data Ends (body : Option Str) (req : HttpRequest) (m : Metrics) (s : S)
      : HttpResponse × Metrics × S → Type 0 where
    oversized :
        {r : HttpResponse × Metrics × S}
        → (exceeds (declared_length req) max_body ≡ true) ⊎ (too_long max_body body ≡ true)
        → r ≡ (text (Response.new 413) (bytes "413 Payload Too Large\n"), entry m, s)
        → Ends body req m s r
    broken :
        {r : HttpResponse × Metrics × S}
        → exceeds (declared_length req) max_body ≡ false
        → body ≡ none
        → r ≡ (empty (Response.new 400), entry m, s)
        → Ends body req m s r
    answered :
        (b : Str) (response : HttpResponse) (s' : S) {r : HttpResponse × Metrics × S}
        → IsAccepted body req b
        → dispatch (from_parts req b) (entry m) s ≡ (some response, s')
        → r.0 ≡ response
        → IsCounted response.status m.timed_out m r.1
        → r.2 ≡ s'
        → Ends body req m s r
    timed_out :
        (b : Str) (s' : S) {r : HttpResponse × Metrics × S}
        → IsAccepted body req b
        → dispatch (from_parts req b) (entry m) s ≡ (none, s')
        → r.0 ≡ text (Response.new 503) (bytes "503 Service Unavailable: processing timeout\n")
        → IsCounted (r.0).status (up m.timed_out) m r.1
        → r.2 ≡ s'
        → Ends body req m s r

  dispatched-Ends :
      (b : Str) (a : Option HttpResponse) (s' : S) (req : HttpRequest) (m : Metrics) (s : S)
      → IsAccepted (some b) req b
      → dispatch (from_parts req b) (entry m) s ≡ (a, s')
      → Ends (some b) req m s ((respond a (entry m)).0, (respond a (entry m)).1, s')
  unfolding respond processing_timeout
  dispatched-Ends b (some response) s' req m s h e =
      answered b response s' h e refl (counted-IsCounted response.status m.timed_out m) refl
  dispatched-Ends b none s' req m s h e =
      timed_out b s' h e refl (counted-IsCounted _ (up m.timed_out) m) refl

  collected-Ends :
      (body : Option Str) (req : HttpRequest) (m : Metrics) (s : S)
      → exceeds (declared_length req) max_body ≡ false
      → Ends body req m s (collected max_body dispatch body req (entered m) s)
  unfolding collected payload_too_large
  collected-Ends none req m s h = broken h refl refl
  collected-Ends (some body) req m s h = elim (Bool-cases (ltb max_body (length body))) [
    | inl e ↦ rw (e, collected) (oversized (inr e) refl)
    | inr e ↦
        rw (e, collected)
          (dispatched-Ends body _ _ req m s
            (record { declared = h; read = refl; short = ground (arith, e) }) refl)
  ]

  -- Every request ends in one of four ways. Declared or collected beyond the limit, it is answered
  -- 413; with a body that cannot be read, 400; in both the handlers' state is untouched, and of the
  -- counters only the two of the entry move. Otherwise its body is within the limit, and the router
  -- is run on it once: the answer is the router's, or 503 with the reason if the time ran out, which
  -- is counted. In the last two cases the gauge of active requests goes up and down again, and one
  -- class of answers goes up: that below 300, that from 300 and below 500, or that from 500.
  pub inner-Ends :
      (body : Option Str) (req : HttpRequest) (m : Metrics) (s : S)
      → Ends body req m s (inner max_body dispatch body req m s)
  unfolding inner payload_too_large
  inner-Ends body req m s = elim (Bool-cases (exceeds (declared_length req) max_body)) [
    | inl e ↦ rw (e, inner) (oversized (inl e) refl)
    | inr e ↦ rw (e, inner) (collected-Ends body req m s e)
  ]
