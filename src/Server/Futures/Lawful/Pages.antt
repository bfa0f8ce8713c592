-- ===== src/Server/Futures/Lawful/Pages.antt =====
-- The handlers of the pages, statement by statement.
use multithreaded.Base.{Bool, true, false, Option, none, some, Bool-cases, inl, inr}
use multithreaded.Base.Text.{Str, bytes}
use multithreaded.Http.Request.{HttpRequest, Utf8Lib}
use multithreaded.Http.Response.{HttpResponse, HttpLib}
use multithreaded.Middleware.Auth.{JwtLib}
use multithreaded.Server.Api.{JsonLib}
use multithreaded.Server.Application.{Platform, Inputs, App}
use multithreaded.Server.Futures.{Future, create, remove, verify_user, list_items}
use multithreaded.Server.Futures.Handlers.{
  current_session, home, metrics_page, login_verified, login, drop_session, logout, list_page,
}
use multithreaded.Server.Futures.Lawful.{Quiet, IsLawful}
use multithreaded.Server.Futures.Lawful.Handlers.{Quiet-IsLawful}
use multithreaded.Server.Futures.Lawful.Statements.{
  create-Quiet, remove-Quiet, verify_user-Quiet, list_items-Quiet, current_session-Quiet,
  current_session-Within,
}
use multithreaded.Server.Pages.{cookie_token, logout_refused, csrf_field}
use multithreaded.Server.Pages.Forms.{PercentLib, two_fields}
use multithreaded.Server.Program.{◌>>=◌}
use multithreaded.Server.Program.Laws.{
  Always, Always->>=, done-Always, Within, Within->>=, done-Within,
}
use multithreaded.Session.{Session}
use multithreaded.Templates.{TemplateLib}

module _ ⦃http : HttpLib⦄ ⦃utf8 : Utf8Lib⦄ ⦃jwt : JwtLib⦄ ⦃serde : JsonLib⦄ ⦃tera : TemplateLib⦄
    (p : Platform) where
  -- What goes on after the lookup of the session.
  after_session_Quiet :
      (req : HttpRequest) (i : Inputs) (k : Option Session → Future p HttpResponse)
      → ((found : Option Session) → Always (Quiet p i.uuid) (k found))
      → Always (Quiet p i.uuid) (current_session p (cookie_token req) i.now >>= k)
  after_session_Quiet req i k h =
      Always->>= (Quiet p i.uuid) (current_session p (cookie_token req) i.now) k
        (current_session-Quiet p i.uuid (cookie_token req) i.now) h

  pub after_session_Within :
      (req : HttpRequest) (i : Inputs) (k : Option Session → Future p HttpResponse)
      → ((found : Option Session) → Within 2 (k found))
      → Within 4 (current_session p (cookie_token req) i.now >>= k)
  after_session_Within req i k h =
      Within->>= 2 2 (current_session p (cookie_token req) i.now) k
        (current_session-Within p (cookie_token req) i.now) h

  pub home-IsLawful : (req : HttpRequest) → IsLawful p req (home p req)
  unfolding home
  home-IsLawful req =
      Quiet-IsLawful p req (home p req)
        (λ i m. after_session_Quiet req i _ (λ found. done-Always (Quiet p i.uuid) _))
        (λ i m. after_session_Within req i _ (λ found. done-Within (App p) 2 _))

  pub metrics_page-IsLawful : (req : HttpRequest) → IsLawful p req (metrics_page p req)
  unfolding metrics_page
  metrics_page-IsLawful req =
      Quiet-IsLawful p req (metrics_page p req)
        (λ i m. after_session_Quiet req i _ (λ found. done-Always (Quiet p i.uuid) _))
        (λ i m. after_session_Within req i _ (λ found. done-Within (App p) 2 _))

  login_verified-Quiet :
      (cookie_secure : Bool) (username : Str) (i : Inputs) (verified : Option Bool)
      → Always (Quiet p i.uuid) (login_verified p cookie_secure username i verified)
  unfolding login_verified create Always
  login_verified-Quiet cookie_secure username i none = tt
  login_verified-Quiet cookie_secure username i (some false) = tt
  login_verified-Quiet cookie_secure username i (some true) =
      λ s. ((create-Quiet p i.uuid i.second_uuid username i.now s).0, tt)

  login_verified-Within :
      (cookie_secure : Bool) (username : Str) (i : Inputs) (verified : Option Bool)
      → Within 3 (login_verified p cookie_secure username i verified)
  unfolding login_verified create Within
  login_verified-Within cookie_secure username i none = tt
  login_verified-Within cookie_secure username i (some false) = tt
  login_verified-Within cookie_secure username i (some true) = λ s. tt

  pub login-IsLawful :
      ⦃percent : PercentLib⦄
      → (cookie_secure : Bool) (req : HttpRequest) → IsLawful p req (login p cookie_secure req)
  unfolding login verify_user Always Within
  login-IsLawful cookie_secure req =
      let (username, password) = two_fields (bytes "username") (bytes "password") req in
      Quiet-IsLawful p req (login p cookie_secure req)
        (λ i m s. (
          (verify_user-Quiet p i.uuid username password s).0,
          login_verified-Quiet cookie_secure username i _,
        ))
        (λ i m s. login_verified-Within cookie_secure username i _)

  drop_session-Quiet :
      (own : Str) (token : Option Str) → Always (Quiet p own) (drop_session p token)
  unfolding drop_session remove Always
  drop_session-Quiet own none = tt
  drop_session-Quiet own (some token) = λ s. ((remove-Quiet p own token s).0, tt)

  drop_session-Within : (token : Option Str) → Within 1 (drop_session p token)
  unfolding drop_session remove Within
  drop_session-Within none = tt
  drop_session-Within (some token) = λ s. tt

  pub logout-IsLawful : (req : HttpRequest) → IsLawful p req (logout p req)
  unfolding logout
  logout-IsLawful req =
      Quiet-IsLawful p req (logout p req)
        (λ i m. after_session_Quiet req i _ (λ found.
          elim (Bool-cases (logout_refused found (csrf_field req))) [
            | inl e ↦ rw e (done-Always (Quiet p i.uuid) _)
            | inr e ↦ rw e (
                Always->>= (Quiet p i.uuid) (drop_session p (cookie_token req)) _
                  (drop_session-Quiet i.uuid (cookie_token req))
                  (λ u. done-Always (Quiet p i.uuid) _))
          ]))
        (λ i m. after_session_Within req i _ (λ found.
          elim (Bool-cases (logout_refused found (csrf_field req))) [
            | inl e ↦ rw e (done-Within (App p) 2 _)
            | inr e ↦ rw e (
                Within->>= 1 1 (drop_session p (cookie_token req)) _
                  (drop_session-Within (cookie_token req)) (λ u. done-Within (App p) 1 _))
          ]))

  pub list_items-Within : Within 1 (list_items p)
  unfolding list_items Within
  list_items-Within = λ s. tt

  pub list_page-IsLawful : (req : HttpRequest) → IsLawful p req (list_page p req)
  unfolding list_page
  list_page-IsLawful req =
      Quiet-IsLawful p req (list_page p req)
        (λ i m. after_session_Quiet req i _ (λ found.
          Always->>= (Quiet p i.uuid) (list_items p) _ (list_items-Quiet p i.uuid)
            (λ o. done-Always (Quiet p i.uuid) _)))
        (λ i m. after_session_Within req i _ (λ found.
          Within->>= 1 1 (list_items p) _ list_items-Within (λ o. done-Within (App p) 1 _)))
