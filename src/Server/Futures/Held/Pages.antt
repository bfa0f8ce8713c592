-- ===== src/Server/Futures/Held/Pages.antt =====
-- The pages keep a session from a request without its CSRF token.
use multithreaded.Base.{
  ℕ, ◌≡◌, ◌≢◌, sym, ◌∙◌, ap, Option, none, some, true, false, Bool, Bool-cases, Option-cases, inl,
  inr, arith, [],
}
use multithreaded.Base.Text.{Str, bytes, str_eq, str_eq-eq}
use multithreaded.Database.Items.{Item}
use multithreaded.Http.Request.{HttpRequest, Utf8Lib}
use multithreaded.Http.Response.{HttpResponse, HttpLib}
use multithreaded.Server.Api.{path_id}
use multithreaded.Server.Application.{Platform, Inputs}
use multithreaded.Server.Futures.{
  Future, create, remove, verify_user, list_items, create_item, delete_item,
}
use multithreaded.Server.Futures.Handlers.{
  home, metrics_page, login_verified, login, drop_session, logout, list_page, create_answer,
  create_page, delete_page,
}
use multithreaded.Server.Futures.Held.{Held, FoundBy, create-Yields, remove-Yields}
use multithreaded.Server.Futures.Held.Handlers.{
  IsHarmless, Keeps, Kept, done-Kept, then-Kept, verify_user-Kept, list_items-Kept,
  create_item-Kept, delete_item-Kept, after_session-Kept,
}
use multithreaded.Server.Pages.{cookie_token, refusal, logout_refused, csrf_field}
use multithreaded.Server.Pages.Forms.{PercentLib, two_fields}
use multithreaded.Server.Program.{done}
use multithreaded.Server.Program.Rely.{Yields, done-Yields, Yields->>=}
use multithreaded.Session.{Session}
use multithreaded.Templates.{TemplateLib}

module _ ⦃http : HttpLib⦄ ⦃utf8 : Utf8Lib⦄ ⦃tera : TemplateLib⦄ (p : Platform) (token : Str)
    (start : ℕ) (session : Session) where
  pub home-Keeps : (req : HttpRequest) → Keeps p token start session req (home p req)
  unfolding home
  home-Keeps req i m harmless =
      after_session-Kept p token start session req i _ harmless
        (λ found f. done-Kept p token start session _)

  pub metrics_page-Keeps :
      (req : HttpRequest) → Keeps p token start session req (metrics_page p req)
  unfolding metrics_page
  metrics_page-Keeps req i m harmless =
      after_session-Kept p token start session req i _ harmless
        (λ found f. done-Kept p token start session _)

  login_verified-Kept :
      (cookie_secure : Bool) (username : Str) (i : Inputs) (verified : Option Bool)
      → token ≢ i.uuid
      → Kept p token start session (login_verified p cookie_secure username i verified)
  unfolding login_verified
  login_verified-Kept cookie_secure username i none ne = done-Kept p token start session _
  login_verified-Kept cookie_secure username i (some false) ne = done-Kept p token start session _
  login_verified-Kept cookie_secure username i (some true) ne =
      then-Kept p token start session (create p i.uuid i.second_uuid username i.now) _
        (create-Yields p token start session i.uuid i.second_uuid username i.now ne)
        (λ o. done-Kept p token start session _)

  pub login-Keeps :
      ⦃percent : PercentLib⦄
      → (cookie_secure : Bool) (req : HttpRequest)
      → Keeps p token start session req (login p cookie_secure req)
  unfolding login
  login-Keeps cookie_secure req i m harmless =
      let (username, password) = two_fields (bytes "username") (bytes "password") req in
      then-Kept p token start session (verify_user p username password) _
        (verify_user-Kept p token start session username password)
        (λ v. login_verified-Kept cookie_secure username i v harmless.other_uuid)

  drop_session-Kept :
      (cookie : Option Str)
      → (cookie ≢ some token)
      → Yields (Held p token start session) (λ u. Unit) (drop_session p cookie)
  unfolding drop_session
  drop_session-Kept none ne = done-Yields (Held p token start session) (λ u. Unit) tt tt
  drop_session-Kept (some key) ne = elim (Bool-cases (str_eq key token)) [
    | inl e ↦ absurd (ne (ap some (str_eq-eq key token e)))
    | inr e ↦
        Yields->>= (Held p token start session) (λ b. Unit) (λ u. Unit) (remove p key) _
          (remove-Yields p token start session key e)
          (λ b u. done-Yields (Held p token start session) (λ u. Unit) tt tt)
  ]

  abbrev csrf_of : Option Session → Str
  csrf_of none = []
  csrf_of (some other) = other.csrf_token

  -- A logout that is let through was not sent with the cookie.
  let_through :
      (req : HttpRequest) (i : Inputs) (found : Option Session)
      → IsHarmless p token start session req i
      → FoundBy p token start session (cookie_token req) found
      → logout_refused found (csrf_field req) ≡ false
      → cookie_token req ≢ some token
  unfolding logout_refused
  let_through req i none harmless f h e = absurd (ground (arith, h))
  let_through req i (some other) harmless f h e =
      elim (Bool-cases (str_eq other.csrf_token (csrf_field req))) [
        | inr ne ↦ absurd (ground (arith, rw ne at h))
        | inl m ↦ elim (f e) [
          | inl q ↦ absurd (ground (arith, q))
          | inr q ↦
              harmless.no_csrf e
                (sym (ap csrf_of q) ∙ str_eq-eq other.csrf_token (csrf_field req) m)
        ]
      ]

  pub logout-Keeps : (req : HttpRequest) → Keeps p token start session req (logout p req)
  unfolding logout
  logout-Keeps req i m harmless =
      after_session-Kept p token start session req i _ harmless (λ found f.
        elim (Bool-cases (logout_refused found (csrf_field req))) [
          | inl e ↦ rw e (done-Kept p token start session _)
          | inr e ↦ rw e (
              Yields->>= (Held p token start session) (λ u. Unit) (λ r. Unit)
                (drop_session p (cookie_token req)) _
                (drop_session-Kept (cookie_token req) (let_through req i found harmless f e))
                (λ u k. done-Kept p token start session _))
        ])

  pub list_page-Keeps : (req : HttpRequest) → Keeps p token start session req (list_page p req)
  unfolding list_page
  list_page-Keeps req i m harmless =
      after_session-Kept p token start session req i _ harmless (λ found f.
        then-Kept p token start session (list_items p) _ (list_items-Kept p token start session)
          (λ o. done-Kept p token start session _))

  create_answer-Kept :
      (created : Option Item) → Kept p token start session (create_answer p created)
  unfolding create_answer
  create_answer-Kept (some item) = done-Kept p token start session _
  create_answer-Kept none =
      then-Kept p token start session (list_items p) _ (list_items-Kept p token start session)
        (λ o. done-Kept p token start session _)

  -- What follows the checks of the two pages that change items.
  checked-Kept :
      (req : HttpRequest) (found : Option Session) (rest : Future p HttpResponse)
      → Kept p token start session rest
      → Kept p token start session
          (elim (refusal found (csrf_field req)) [ some answer ↦ done answer | none ↦ rest ])
  checked-Kept req found rest h = elim (Option-cases (refusal found (csrf_field req))) [
    | inl e ↦ rw e h
    | inr (answer, e) ↦ rw e (done-Kept p token start session answer)
  ]

  pub create_page-Keeps :
      ⦃percent : PercentLib⦄
      → (req : HttpRequest) → Keeps p token start session req (create_page p req)
  unfolding create_page
  create_page-Keeps req i m harmless =
      let (name, description) = two_fields (bytes "name") (bytes "description") req in
      after_session-Kept p token start session req i _ harmless (λ found f.
        checked-Kept req found _ (
          then-Kept p token start session (create_item p i.uuid name description) _
            (create_item-Kept p token start session i.uuid name description) create_answer-Kept))

  pub delete_page-Keeps : (req : HttpRequest) → Keeps p token start session req (delete_page p req)
  unfolding delete_page
  delete_page-Keeps req i m harmless =
      after_session-Kept p token start session req i _ harmless (λ found f.
        checked-Kept req found _ (
          then-Kept p token start session (delete_item p (path_id req)) _
            (delete_item-Kept p token start session (path_id req))
            (λ o. done-Kept p token start session _)))
