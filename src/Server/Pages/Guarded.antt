-- ===== src/Server/Pages/Guarded.antt =====
-- The pages change items for a request with a live session and its CSRF token only.
use multithreaded.Base.{
  ℕ, ◌+◌, ◌≡◌, refl, sym, ap, Option, none, some, Bool-cases, Option-cases, inl, inr, ◌⊎◌, arith,
}
use multithreaded.Base.Text.{Str, str_eq, str_eq-eq}
use multithreaded.Http.Request.{HttpRequest, Utf8Lib}
use multithreaded.Http.Response.{HttpResponse, HttpLib}
use multithreaded.Metrics.{Metrics}
use multithreaded.Server.Application.{Platform, Inputs, App}
use multithreaded.Server.Pages.{cookie_token, current_session, flatten, refusal, csrf_field}
use multithreaded.Server.Pages.Forms.{PercentLib}
use multithreaded.Server.Pages.Items.{create_page, delete_page}
use multithreaded.Session.{Session, live, SessionsTable, get, get_selected, session_ttl_secs}
use multithreaded.Templates.{TemplateLib}

-- The request carries the cookie of a session that has not expired, and the form that session's
-- CSRF token.
pub record IsGenuine ⦃utf8 : Utf8Lib⦄ (p : Platform) (req : HttpRequest) (i : Inputs) (s : App p)
    : Type 0 where
  pub token : Str
  pub session : Session
  pub carried : cookie_token req ≡ some token
  pub alive : live i.now (p.sessions.rows s.sessions token) ≡ some session
  pub matching : session.csrf_token ≡ csrf_field req

selected_answer :
    (db : SessionsTable) (token : Str) (now : ℕ) (o : Option (Option Session)) (t : db.Table)
    (session : Session)
    → flatten (get_selected db token now o t).0 ≡ some session
    → o ≡ some (some session)
unfolding get_selected
selected_answer db token now none t session h = absurd (ground (arith, h))
selected_answer db token now (some none) t session h = elim (Bool-cases ((db.delete token t).0)) [
  | inl ok ↦ absurd (ground (arith, rw ok at h))
  | inr ok ↦ absurd (ground (arith, rw ok at h))
]
selected_answer db token now (some (some found)) t session h =
    elim (Bool-cases ((db.update (now + session_ttl_secs) token t).0)) [
      | inl ok ↦ ap some (rw ok at h)
      | inr ok ↦ absurd (ground (arith, rw ok at h))
    ]

-- The lookup of a session answers what the row says.
get-live :
    (db : SessionsTable) (token : Str) (now : ℕ) (t : db.Table) (session : Session)
    → flatten (get db token now t).0 ≡ some session
    → live now (db.rows t token) ≡ some session
unfolding get
get-live db token now t session h =
    sym (db.select_ok token now t (some session) (selected_answer db token now _ _ session h))

module _ (p : Platform) where
  -- What the lookup changes is the sessions.
  pub current_session-items :
      (token : Option Str) (now : ℕ) (s : App p) → (current_session p token now s).1.items ≡ s.items
  unfolding current_session
  current_session-items none now s = refl
  current_session-items (some token) now s = refl

  pub current_session-users :
      (token : Option Str) (now : ℕ) (s : App p) → (current_session p token now s).1.users ≡ s.users
  unfolding current_session
  current_session-users none now s = refl
  current_session-users (some token) now s = refl

  module _ ⦃utf8 : Utf8Lib⦄ where
    -- Passing the checks of a page takes a genuine request.
    refusal-IsGenuine :
        ⦃http : HttpLib⦄
        → (req : HttpRequest) (i : Inputs) (s : App p) (token : Option Str)
        → cookie_token req ≡ token
        → refusal (current_session p token i.now s).0 (csrf_field req) ≡ none
        → IsGenuine p req i s
    unfolding refusal current_session
    refusal-IsGenuine req i s none e h = absurd (ground (arith, h))
    refusal-IsGenuine req i s (some token) e h =
        elim (Option-cases (flatten (get p.sessions token i.now s.sessions).0)) [
          | inl q ↦ absurd (ground (arith, rw q at h))
          | inr (session, q) ↦ elim (Bool-cases (str_eq session.csrf_token (csrf_field req))) [
            | inl m ↦ record {
              token = token;
              session = session;
              carried = e;
              alive = get-live p.sessions token i.now s.sessions session q;
              matching = str_eq-eq session.csrf_token (csrf_field req) m;
            }
            | inr m ↦ absurd (ground (arith, rw m at (rw q at h)))
          ]
        ]

    -- The rows of the items are kept, or the request is genuine.
    abbrev pub Guards : HttpRequest → Inputs → App p → HttpResponse × App p → Type 0
    Guards req i s r = (p.items.rows r.1.items ≡ p.items.rows s.items) ⊎ IsGenuine p req i s

    module _ ⦃http : HttpLib⦄ ⦃tera : TemplateLib⦄ (req : HttpRequest) (i : Inputs) (m : Metrics)
        (s : App p) where
      pub create_page-Guards : ⦃percent : PercentLib⦄ → Guards req i s (create_page p req i m s)
      unfolding create_page
      create_page-Guards =
          elim (Option-cases
            (refusal (current_session p (cookie_token req) i.now s).0 (csrf_field req))) [
              | inl e ↦ inr (refusal-IsGenuine req i s (cookie_token req) refl e)
              | inr (answer, e) ↦ inl (
                  rw (e, create_page)
                    (ap p.items.rows (current_session-items (cookie_token req) i.now s)))
            ]

      pub delete_page-Guards : Guards req i s (delete_page p req i m s)
      unfolding delete_page
      delete_page-Guards =
          elim (Option-cases
            (refusal (current_session p (cookie_token req) i.now s).0 (csrf_field req))) [
              | inl e ↦ inr (refusal-IsGenuine req i s (cookie_token req) refl e)
              | inr (answer, e) ↦ inl (
                  rw (e, delete_page)
                    (ap p.items.rows (current_session-items (cookie_token req) i.now s)))
            ]
