-- ===== src/Server/Connection/Accounting.antt =====
-- The counters over any interleaving of requests.
use multithreaded.Base.{ℕ, suc, ◌+◌, ◌%◌, ◌^◌, ◌≡◌, Option, none, some, List, [], ◌∷◌, arith}
use multithreaded.Http.Response.{HttpResponse, HttpLib}
use multithreaded.Metrics.{Metrics, up, down}
use multithreaded.Metrics as Metrics
use multithreaded.Server.Connection.{entered, counted, respond, processing_timeout}
use multithreaded.Server.Connection.Effect.{Event, start, refuse, abandon, answer, apply_all}

abbrev pub starts : List Event → ℕ
starts [] = 0
starts (start ∷ es) = suc (starts es)
starts (_ ∷ es) = starts es

abbrev pub refusals : List Event → ℕ
refusals [] = 0
refusals (refuse ∷ es) = suc (refusals es)
refusals (_ ∷ es) = refusals es

abbrev pub abandoned : List Event → ℕ
abandoned [] = 0
abandoned (abandon ∷ es) = suc (abandoned es)
abandoned (_ ∷ es) = abandoned es

abbrev pub answered : List Event → ℕ
answered [] = 0
answered (answer a ∷ es) = suc (answered es)
answered (_ ∷ es) = answered es

abbrev pub classes : Metrics → ℕ
classes m = m.responses_2xx + m.responses_4xx + m.responses_5xx

abbrev pub modulus : ℕ
modulus = 2 ^ 64

-- The counters `m'` are those of `m` after so many starts and answers, up to wrapping.
pub record Accounts (m m' : Metrics) (started ended : ℕ) : Type 0 where
  pub total : m'.requests_total % modulus ≡ (m.requests_total + started) % modulus
  pub classed : classes m' % modulus ≡ (classes m + ended) % modulus
  pub active : (m'.requests_active + ended) % modulus ≡ (m.requests_active + started) % modulus

counted-Accounts : (status : ℕ) (m : Metrics) → Accounts m (counted status m) 0 1
unfolding counted
counted-Accounts status m = ground arith

module _ ⦃http : HttpLib⦄ where
  respond-Accounts : (a : Option HttpResponse) (m : Metrics) → Accounts m (respond a m).1 0 1
  unfolding respond
  respond-Accounts (some r) m = counted-Accounts r.status m
  respond-Accounts none m =
      let late : Metrics = record m { timed_out = up m.timed_out } in
      let h = counted-Accounts processing_timeout.status late in
      record { total = h.total; classed = h.classed; active = h.active }

  -- Whatever requests start, are refused, dropped and answered, in any order: the total counts the
  -- starts, the status classes together count the answers, and the gauge of active requests goes
  -- up with each start and down with each answer, all modulo 2⁶⁴.
  pub apply_all-Accounts :
      (m : Metrics) (es : List Event) → Accounts m (apply_all m es) (starts es) (answered es)
  unfolding apply_all
  apply_all-Accounts m [] = ground arith
  apply_all-Accounts m (start ∷ es) =
      let h = apply_all-Accounts (entered m) es in
      record { total = omega arith; classed = omega arith; active = omega arith }
  apply_all-Accounts m (refuse ∷ es) = apply_all-Accounts m es
  apply_all-Accounts m (abandon ∷ es) = apply_all-Accounts m es
  apply_all-Accounts m (answer a ∷ es) =
      let h = respond-Accounts a m in
      let k = apply_all-Accounts (respond a m).1 es in
      record { total = omega arith; classed = omega arith; active = omega arith }

  -- The gauge leaks: when no request is in progress any more, having started with the server, the
  -- gauge of active requests still shows every request that was ever refused for its body or dropped
  -- before its answer.
  pub requests_active_leaks :
      (es : List Event)
      → starts es ≡ refusals es + abandoned es + answered es
      → (apply_all Metrics.new es).requests_active % modulus
        ≡ (refusals es + abandoned es) % modulus
  requests_active_leaks es h = omega (arith, (apply_all-Accounts Metrics.new es).active)
