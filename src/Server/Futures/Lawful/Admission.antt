-- ===== src/Server/Futures/Lawful/Admission.antt =====
-- The checks of the two pages that change items, statement by statement.
use multithreaded.Base.{
  ℕ, ◌+◌, ◌≡◌, refl, sym, Option, none, some, Bool-cases, Option-cases, inl, inr, ◌⊎◌, arith,
}
use multithreaded.Base.Text.{Str, str_eq, str_eq-eq}
use multithreaded.Http.Request.{HttpRequest, Utf8Lib}
use multithreaded.Http.Response.{HttpResponse, HttpLib}
use multithreaded.Middleware.Auth.{JwtLib}
use multithreaded.Server.Api.{JsonLib}
use multithreaded.Server.Application.{Platform, Inputs, App}
use multithreaded.Server.Futures.{Future, get, get_selected}
use multithreaded.Server.Futures.Handlers.{current_session}
use multithreaded.Server.Futures.Lawful.{IsPrivileged}
use multithreaded.Server.Pages.{cookie_token, flatten, refusal, csrf_field}
use multithreaded.Server.Pages.Kept.{ItemsKept}
use multithreaded.Server.Program.{done, ◌>>=◌}
use multithreaded.Server.Program.Laws.{Until}
use multithreaded.Session.{Session, session_ttl_secs}

module _ ⦃http : HttpLib⦄ ⦃utf8 : Utf8Lib⦄ ⦃jwt : JwtLib⦄ ⦃serde : JsonLib⦄ (p : Platform)
    (req : HttpRequest) (i : Inputs) where
  abbrev Quietly : {A : Type 0} → Future p A → Type 0
  Quietly future = Until (IsPrivileged p req i) (ItemsKept p) future

  -- What goes on only with a session whose CSRF token is that of the form.
  abbrev pub Passes : Option Session → Type 0
  Passes found = refusal found (csrf_field req) ≡ none

  module _ (k : Option Session → Future p HttpResponse)
      (refused : (found : Option Session) → (Passes found → ⊥) → Quietly (k found)) where
    no_session : Passes none → ⊥
    unfolding refusal
    no_session h = absurd (ground (arith, h))

    get_selected-Quietly :
        (token : Str) (now : ℕ) (o : Option (Option Session))
        → (Passes (flatten o) → ⊥)
        → Quietly ((get_selected p token now o >>= λ found. done (flatten found)) >>= k)
    unfolding get_selected Until
    get_selected-Quietly token now none h = refused none h
    get_selected-Quietly token now (some none) h = λ s. inr (
      refl,
      elim (Bool-cases ((p.sessions.delete token s.sessions).0)) [
        | inl e ↦ rw e (refused none no_session)
        | inr e ↦ rw e (refused none no_session)
      ],
    )
    get_selected-Quietly token now (some (some session)) h = λ s. inr (
      refl,
      elim (Bool-cases ((p.sessions.update (now + session_ttl_secs) token s.sessions).0)) [
        | inl e ↦ rw e (refused (some session) h)
        | inr e ↦ rw e (refused none no_session)
      ],
    )

    -- The session that the `SELECT` gives either makes the request genuine there and then, or does
    -- not pass.
    selected :
        (token : Str) (s : App p)
        → cookie_token req ≡ some token
        → let o = (p.sessions.select token i.now s.sessions).0 in
          IsPrivileged p req i s ⊎ (Passes (flatten o) → ⊥)
    unfolding refusal
    selected token s e = elim (Option-cases ((p.sessions.select token i.now s.sessions).0)) [
      | inl q ↦ inr (rw q no_session)
      | inr (found, q) ↦ by found q
    ]
      where
        by :
            (found : Option Session)
            → (p.sessions.select token i.now s.sessions).0 ≡ some found
            → IsPrivileged p req i s
              ⊎ (Passes (flatten (p.sessions.select token i.now s.sessions).0) → ⊥)
        by none q = inr (rw q no_session)
        by (some session) q = elim (Bool-cases (str_eq session.csrf_token (csrf_field req))) [
          | inl m ↦ inl (
              inr (record {
                token = token;
                session = session;
                carried = e;
                alive = sym (p.sessions.select_ok token i.now s.sessions (some session) q);
                matching = str_eq-eq session.csrf_token (csrf_field req) m;
              }))
          | inr m ↦ inr (rw q (λ h. absurd (ground (arith, rw m at h))))
        ]

    current_session-by :
        (token : Option Str)
        → cookie_token req ≡ token
        → Quietly (current_session p token i.now >>= k)
    unfolding current_session get Until
    current_session-by none e = refused none no_session
    current_session-by (some token) e = λ s. elim (selected token s e) [
      | inl privileged ↦ inl privileged
      | inr h ↦ inr (refl, get_selected-Quietly token i.now _ h)
    ]

    -- Up to the step at which the request is genuine nothing changes an item.
    pub current_session-Quietly :
        Until
          (IsPrivileged p req i)
          (ItemsKept p)
          (current_session p (cookie_token req) i.now >>= k)
    current_session-Quietly = current_session-by (cookie_token req) refl
