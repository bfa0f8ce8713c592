-- ===== src/Server/Routes/Number.antt =====
-- What the route `/fib/:n` answers.
use multithreaded.Base.{ℕ, ◌≡◌, refl, ◌∙◌, ◌++◌, ap, ◌≢◌, ◌⊎◌, inl, inr}
use multithreaded.Base.Text.{bytes}
use multithreaded.Base.Decimal.{to_string}
use multithreaded.Http.Request.{HttpRequest, path_param}
use multithreaded.Http.Response.{HttpResponse, HttpLib, text, empty, ok, internal_error}
use multithreaded.Metrics.{Metrics}
use multithreaded.Server.Application.{Platform, Inputs, App}
use multithreaded.Server.Fibonacci.{fib, capped, fibonacci, fib-capped}
use multithreaded.Server.Routes.Public.{requested, fib_answer, fib_route}
use multithreaded.Server.Task.{Joined, returned, panicked, cancelled, joined, run_blocking}

module _ ⦃http : HttpLib⦄ where
  abbrev shown : ℕ → HttpResponse
  shown n = text ok (to_string n ++ bytes "\n")

  fib_answer-joined :
      (end : Joined {0} Unit) (n : ℕ)
      → ((end ≡ returned tt) × (fib_answer (run_blocking (joined end n)) ≡ shown n))
        ⊎ ((end ≢ returned tt) × (fib_answer (run_blocking (joined end n)) ≡ empty internal_error))
  unfolding fib_answer run_blocking joined
  fib_answer-joined (returned u) n = inl (refl, refl)
  fib_answer-joined (panicked payload) n = inr ((λ h. cc), refl)
  fib_answer-joined cancelled n = inr ((λ h. cc), refl)

  -- The route changes nothing. If the pool returns, it answers 200 with the Fibonacci number at the
  -- number that the path asks for, or at 50 if that is less, and at 10 if the path has no number of
  -- 64 bits; if the task panics or is cancelled, it answers 500 without a body.
  pub fib_route-fibonacci :
      (p : Platform) (req : HttpRequest) (i : Inputs) (m : Metrics) (s : App p)
      → let n = capped (requested (path_param req (bytes "n"))) in
        ((i.blocking ≡ returned tt)
          × (fib_route p req i m s ≡ (text ok (to_string (fibonacci n) ++ bytes "\n"), s)))
        ⊎ ((i.blocking ≢ returned tt) × (fib_route p req i m s ≡ (empty internal_error, s)))
  unfolding fib_route
  fib_route-fibonacci p req i m s =
      let n = requested (path_param req (bytes "n")) in
      elim (fib_answer-joined i.blocking (fib (capped n))) [
        | inl (e, a) ↦ inl (e, ap (λ r. (r, s)) a ∙ ap (λ k. (shown k, s)) (fib-capped n))
        | inr (e, a) ↦ inr (e, ap (λ r. (r, s)) a)
      ]
