-- ===== src/Middleware/Concurrency/Cap.antt =====
-- The cap on requests in progress.
use multithreaded.Base.{
  ℕ, zero, suc, ◌+◌, ◌≤◌, ◌≡◌, refl, arith, some, List, [], ◌∷◌, ◌↔◌, Option-cases, inl, inr,
}
use multithreaded.Http.Response.{HttpLib}
use multithreaded.Middleware.Semaphore.{SemaphoreLib}
use multithreaded.Middleware.Concurrency.{
  Event, arrive, complete, service_unavailable, Limiter, new, call, finish_one, step, run,
}

module _ ⦃http : HttpLib⦄ (lib : SemaphoreLib) where
  open lib use {
    available_permits, available-with_permits, try_acquire_none, try_acquire_some,
    try_acquire_owned, available-drop_permit,
  }

  -- A permit is either free or held by a running future.
  abbrev pub Balances : ℕ → Limiter lib → Type 0
  Balances cap limiter = available_permits limiter.semaphore + limiter.running ≡ cap

  new-Balances : (cap : ℕ) → cap ≤ lib.max_permits → Balances cap (new lib cap)
  unfolding new
  new-Balances cap few = omega (arith, available-with_permits cap few)

  call-Balances :
      (cap : ℕ) (limiter : Limiter lib) → Balances cap limiter → Balances cap (call lib limiter).0
  unfolding call
  call-Balances cap limiter h = elim (Option-cases (try_acquire_owned limiter.semaphore)) [
    | inl e ↦ rw (e, call) h
    | inr (s, e) ↦ rw (e, call) (omega (arith, try_acquire_some limiter.semaphore s e))
  ]

  finish_one-Balances :
      (cap : ℕ) (limiter : Limiter lib) (running : ℕ)
      → limiter.running ≡ running
      → Balances cap limiter
      → Balances cap (finish_one lib limiter running)
  unfolding finish_one
  finish_one-Balances cap limiter zero e h = h
  finish_one-Balances cap limiter (suc running) e h =
      omega (arith, available-drop_permit limiter.semaphore)

  step-Balances :
      (cap : ℕ) (limiter : Limiter lib) (e : Event)
      → Balances cap limiter
      → Balances cap (step lib limiter e)
  unfolding step
  step-Balances cap limiter arrive h = call-Balances cap limiter h
  step-Balances cap limiter complete h = finish_one-Balances cap limiter limiter.running refl h

  run-Balances :
      (cap : ℕ) (limiter : Limiter lib) (es : List Event)
      → Balances cap limiter
      → Balances cap (run lib limiter es)
  unfolding run
  run-Balances cap limiter [] h = h
  run-Balances cap limiter (e ∷ es) h =
      run-Balances cap (step lib limiter e) es (step-Balances cap limiter e h)

  call_cases :
      (limiter : Limiter lib)
      → ((call lib limiter).1 ≡ some service_unavailable)
        ↔ (available_permits limiter.semaphore ≡ 0)
  unfolding call
  call_cases limiter = elim (Option-cases (try_acquire_owned limiter.semaphore)) [
    | inl e ↦ rw (e, call) ((λ _. try_acquire_none limiter.semaphore e), (λ _. refl))
    | inr (s, e) ↦
        rw (e, call)
          ((λ k. cc), (λ k. absurd (omega (arith, try_acquire_some limiter.semaphore s e))))
  ]

  -- With a limit that a semaphore can have, however requests arrive and complete after the start: at
  -- most `cap` are in progress, and the
  -- next one is answered 503 exactly when `cap` are.
  pub run_cap :
      (cap : ℕ) (es : List Event)
      → cap ≤ lib.max_permits
      → ((run lib (new lib cap) es).running ≤ cap)
        × (((call lib (run lib (new lib cap) es)).1 ≡ some service_unavailable)
            ↔ ((run lib (new lib cap) es).running ≡ cap))
  run_cap cap es few =
      let balance = run-Balances cap (new lib cap) es (new-Balances cap few) in
      let (to, from) = call_cases (run lib (new lib cap) es) in
      (omega arith, ((λ k. omega (arith, to k)), (λ k. from (omega arith))))
