-- ===== src/Server/Futures/Held/Handlers.antt =====
-- No handler ends a session but the logout with its CSRF token.
use multithreaded.Base.{ℕ, ◌≡◌, ◌≢◌, sym, subst, Option, some, Option-cases, inl, inr}
use multithreaded.Base.Text.{Str}
use multithreaded.Http.Request.{HttpRequest, Utf8Lib}
use multithreaded.Http.Response.{HttpResponse, HttpLib}
use multithreaded.Metrics.{Metrics}
use multithreaded.Middleware.Auth.{JwtLib}
use multithreaded.Server.Api.{JsonLib, rejected, path_id}
use multithreaded.Server.Application.{Platform, Inputs, App, Handler}
use multithreaded.Server.Futures.{
  Future, Awaited, verify_user, list_items, get_item, create_item, delete_item,
}
use multithreaded.Server.Futures.Handlers.{
  current_session, auth_token, get_items, get_one, post_item, delete_one,
}
use multithreaded.Server.Futures.Held.{Held, InTime, FoundBy, current_session-Yields}
use multithreaded.Server.Futures.Routes.{at_once}
use multithreaded.Server.Pages.{cookie_token, csrf_field}
use multithreaded.Server.Program.{done, ◌>>=◌}
use multithreaded.Server.Program.Rely.{Yields, done-Yields, Yields->>=}
use multithreaded.Session.{Session}

module _ ⦃http : HttpLib⦄ ⦃utf8 : Utf8Lib⦄ (p : Platform) (token : Str) (start : ℕ)
    (session : Session) where
  -- The request is answered within the hour, is not given the token as its UUID, and does not have
  -- the CSRF token of the session in its form if it has the session's cookie.
  pub record IsHarmless (req : HttpRequest) (i : Inputs) : Type 0 where
    pub in_time : InTime p token start session i.now
    pub other_uuid : token ≢ i.uuid
    pub no_csrf : cookie_token req ≡ some token → session.csrf_token ≢ csrf_field req

  -- The future of a harmless request keeps the session.
  abbrev pub Keeps : HttpRequest → Awaited p → Type 0
  Keeps req a =
      (i : Inputs) (m : Metrics)
      → IsHarmless req i
      → Yields (Held p token start session) (λ r. Unit) (a i m)

  abbrev pub Kept : {A : Type 0} → Future p A → Type 0
  Kept future = Yields (Held p token start session) (λ r. Unit) future

  pub done-Kept : (r : HttpResponse) → Kept (done r)
  done-Kept r = done-Yields (Held p token start session) (λ r. Unit) r tt

  pub at_once-Keeps :
      (handler : Handler p)
      → ((req : HttpRequest) (i : Inputs) (m : Metrics) (s : App p) → (handler req i m s).1 ≡ s)
      → (req : HttpRequest) → Keeps req (at_once p handler req)
  unfolding Yields
  at_once-Keeps handler h req i m harmless =
      λ s held. (subst (Held p token start session) (sym (h req i m s)) held, tt)

  pub then-Kept :
      {A : Type 0} (future : Future p A) (k : A → Future p HttpResponse)
      → Kept future
      → ((a : A) → Kept (k a))
      → Kept (future >>= k)
  then-Kept future k h hk =
      Yields->>= (Held p token start session) (λ a. Unit) (λ r. Unit) future k h (λ a u. hk a)

  pub verify_user-Kept : (username password : Str) → Kept (verify_user p username password)
  unfolding verify_user Yields
  verify_user-Kept username password = λ s held. (held, tt)

  pub list_items-Kept : Kept (list_items p)
  unfolding list_items Yields
  list_items-Kept = λ s held. (held, tt)

  get_item-Kept : (id : Str) → Kept (get_item p id)
  unfolding get_item Yields
  get_item-Kept id = λ s held. (held, tt)

  pub create_item-Kept : (id name description : Str) → Kept (create_item p id name description)
  unfolding create_item Yields
  create_item-Kept id name description = λ s held. (held, tt)

  pub delete_item-Kept : (id : Str) → Kept (delete_item p id)
  unfolding delete_item Yields
  delete_item-Kept id = λ s held. (held, tt)

  -- What follows the lookup of the session of the cookie.
  pub after_session-Kept :
      (req : HttpRequest) (i : Inputs) (k : Option Session → Future p HttpResponse)
      → IsHarmless req i
      → ((found : Option Session)
          → FoundBy p token start session (cookie_token req) found
          → Kept (k found))
      → Kept (current_session p (cookie_token req) i.now >>= k)
  after_session-Kept req i k harmless hk =
      Yields->>= (Held p token start session) (FoundBy p token start session (cookie_token req))
        (λ r. Unit) (current_session p (cookie_token req) i.now) k
        (current_session-Yields p token start session (cookie_token req) i.now harmless.in_time) hk

  module _ ⦃jwt : JwtLib⦄ ⦃serde : JsonLib⦄ where
    pub auth_token-Keeps : (req : HttpRequest) → Keeps req (auth_token p req)
    unfolding auth_token
    auth_token-Keeps req i m harmless = elim (Option-cases (serde.parse_login req.body)) [
      | inl e ↦ rw (e, auth_token) (done-Kept _)
      | inr ((username, password), e) ↦
          rw (e, auth_token)
            (then-Kept (verify_user p username password) _ (verify_user-Kept username password)
              (λ v. done-Kept _))
    ]

    pub get_items-Keeps : (req : HttpRequest) → Keeps req (get_items p req)
    unfolding get_items
    get_items-Keeps req i m harmless = then-Kept (list_items p) _ list_items-Kept (λ o. done-Kept _)

    pub get_one-Keeps : (req : HttpRequest) → Keeps req (get_one p req)
    unfolding get_one
    get_one-Keeps req i m harmless =
        then-Kept (get_item p (path_id req)) _ (get_item-Kept (path_id req)) (λ o. done-Kept _)

    pub post_item-Keeps : (req : HttpRequest) → Keeps req (post_item p req)
    unfolding post_item
    post_item-Keeps req i m harmless = elim (Option-cases (rejected req i.now)) [
      | inr (answer, e) ↦ rw (e, post_item) (done-Kept _)
      | inl e ↦ elim (Option-cases (serde.parse_item req.body)) [
        | inl q ↦ rw (e, post_item) (rw (q, post_item) (done-Kept _))
        | inr (payload, q) ↦
            rw (e, post_item)
              (rw (q, post_item)
                (then-Kept (create_item p i.uuid payload.name payload.description) _
                  (create_item-Kept i.uuid payload.name payload.description) (λ o. done-Kept _)))
      ]
    ]

    pub delete_one-Keeps : (req : HttpRequest) → Keeps req (delete_one p req)
    unfolding delete_one
    delete_one-Keeps req i m harmless = elim (Option-cases (rejected req i.now)) [
      | inr (answer, e) ↦ rw (e, delete_one) (done-Kept _)
      | inl e ↦
          rw (e, delete_one)
            (then-Kept (delete_item p (path_id req)) _ (delete_item-Kept (path_id req))
              (λ o. done-Kept _))
    ]
