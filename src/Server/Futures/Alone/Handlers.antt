-- ===== src/Server/Futures/Alone/Handlers.antt =====
-- Each handler with nothing in between is the handler that runs to its end.
use multithreaded.Base.{
  ◌≡◌, refl, ◌∙◌, Bool, true, false, Option, none, some, Bool-cases, Option-cases, inl, inr,
}
use multithreaded.Base.Text.{Str, bytes}
use multithreaded.Database.Items.{Item}
use multithreaded.Database.Items as Items
use multithreaded.Database.Users as Users
use multithreaded.Http.Request.{HttpRequest, Utf8Lib}
use multithreaded.Http.Response.{HttpLib}
use multithreaded.Metrics.{Metrics}
use multithreaded.Middleware.Auth.{JwtLib}
use multithreaded.Server.Api.{JsonLib, rejected, post_authorized}
use multithreaded.Server.Api as Api
use multithreaded.Server.Application.{Platform, Inputs, App}
use multithreaded.Server.Futures.{
  create, verify_user, list_items, get_item, create_item, delete_item, remove,
}
use multithreaded.Server.Futures.Alone.{run-create, run-current_session}
use multithreaded.Server.Futures.Handlers.{
  current_session, auth_token, get_items, get_one, post_item, delete_one, home, metrics_page,
  login_verified, login, drop_session, logout, list_page, create_answer, create_page, delete_page,
}
use multithreaded.Server.Pages as Pages
use multithreaded.Server.Pages.{cookie_token, refusal, logout_refused, csrf_field}
use multithreaded.Server.Pages.Forms.{PercentLib, two_fields}
use multithreaded.Server.Pages.Handlers as PageHandlers
use multithreaded.Server.Pages.Items as PageItems
use multithreaded.Server.Program.{done, run, ◌>>=◌}
use multithreaded.Server.Program.Laws.{run-then}
use multithreaded.Server.Routes.{on_items}
use multithreaded.Server.Routes.Public as Public
use multithreaded.Session as Session
use multithreaded.Templates.{TemplateLib}

-- The answer of an operation on the items, in the state that they are part of.
abbrev with_items : (p : Platform) {A : Type 0} → App p → A × p.items.Table → A × App p
with_items p s (a, t) = (a, record s { items = t })

run-create_item :
    (p : Platform) (id name description : Str) (s : App p)
    → run (create_item p id name description) s
      ≡ with_items p s (Items.create_item p.items id name description s.items)
unfolding run create_item Items.create_item
run-create_item p id name description s =
    let item : Item = record { id = id; name = name; description = description } in
    elim (Bool-cases ((p.items.insert item s.items).0)) [ inl e ↦ rw e refl | inr e ↦ rw e refl ]

module _ ⦃http : HttpLib⦄ ⦃jwt : JwtLib⦄ ⦃serde : JsonLib⦄ (p : Platform) (req : HttpRequest)
    (i : Inputs) (m : Metrics) (s : App p) where
  pub run-auth_token : run (auth_token p req i m) s ≡ Public.auth_token p req i m s
  unfolding run auth_token Public.auth_token verify_user Users.verify_user
  run-auth_token = elim (Option-cases (serde.parse_login req.body)) [
    | inl e ↦ rw (e, run, auth_token, Public.auth_token) refl
    | inr (found, e) ↦ rw (e, run, auth_token, Public.auth_token) refl
  ]

  pub run-get_items : run (get_items p req i m) s ≡ on_items p (Api.get_items p.items) req s
  unfolding run get_items Api.get_items list_items Items.list_items
  run-get_items = refl

  pub run-get_one : run (get_one p req i m) s ≡ on_items p (Api.get_one p.items) req s
  unfolding run get_one Api.get_one get_item Items.get_item
  run-get_one = refl

  pub run-post_item :
      run (post_item p req i m) s ≡ on_items p (Api.post_item p.items i.uuid i.now) req s
  unfolding run post_item Api.post_item post_authorized
  run-post_item = elim (Option-cases (rejected req i.now)) [
    | inr (answer, e) ↦ rw (e, run, post_item, Api.post_item) refl
    | inl e ↦ elim (Option-cases (serde.parse_item req.body)) [
      | inl q ↦ rw (e, run, post_item, Api.post_item) (rw (q, run, post_authorized) refl)
      | inr (payload, q) ↦
          rw (e, run, post_item, Api.post_item)
            (rw (q, run, post_authorized)
              (run-then (create_item p i.uuid payload.name payload.description) _ s _
                (run-create_item p i.uuid payload.name payload.description s)))
    ]
  ]

  pub run-delete_one :
      run (delete_one p req i m) s ≡ on_items p (Api.delete_one p.items i.now) req s
  unfolding run delete_one Api.delete_one delete_item Items.delete_item
  run-delete_one = elim (Option-cases (rejected req i.now)) [
    | inr (answer, e) ↦ rw (e, run, delete_one, Api.delete_one) refl
    | inl e ↦ rw (e, run, delete_one, Api.delete_one) refl
  ]

module _ ⦃http : HttpLib⦄ ⦃tera : TemplateLib⦄ (p : Platform) (req : HttpRequest) (i : Inputs)
    (m : Metrics) (s : App p) where
  pub run-home : run (home p req i m) s ≡ PageHandlers.home p req i m s
  unfolding run home PageHandlers.home
  run-home =
      run-then (current_session p (cookie_token req) i.now) _ s _
        (run-current_session p (cookie_token req) i.now s)

  pub run-metrics_page : run (metrics_page p req i m) s ≡ PageHandlers.metrics_page p req i m s
  unfolding run metrics_page PageHandlers.metrics_page
  run-metrics_page =
      run-then (current_session p (cookie_token req) i.now) _ s _
        (run-current_session p (cookie_token req) i.now s)

  run-login_verified :
      (cookie_secure : Bool) (username : Str) (verified : Option Bool) (s' : App p)
      → run (login_verified p cookie_secure username i verified) s'
        ≡ PageHandlers.login_verified p cookie_secure username verified i s'
  unfolding run login_verified PageHandlers.login_verified PageHandlers.logged_in
  run-login_verified cookie_secure username none s' = refl
  run-login_verified cookie_secure username (some false) s' = refl
  run-login_verified cookie_secure username (some true) s' =
      run-then (create p i.uuid i.second_uuid username i.now) _ s' _
        (run-create p i.uuid i.second_uuid username i.now s')

  run-drop_session :
      {A : Type 0} (token : Option Str) (a : A) (s' : App p)
      → run (drop_session p token >>= λ u. done a) s' ≡ (a, PageHandlers.drop_session p token s')
  unfolding run drop_session PageHandlers.drop_session remove Session.remove
  run-drop_session none a s' = refl
  run-drop_session (some token) a s' = refl

  module _ ⦃utf8 : Utf8Lib⦄ where
    pub run-login :
        ⦃percent : PercentLib⦄
        → (cookie_secure : Bool)
        → run (login p cookie_secure req i m) s ≡ PageHandlers.login p cookie_secure req i m s
    unfolding run login PageHandlers.login verify_user Users.verify_user
    run-login cookie_secure = run-login_verified cookie_secure _ _ _

    pub run-logout : run (logout p req i m) s ≡ PageHandlers.logout p req i m s
    unfolding PageHandlers.logout logout run
    run-logout =
        run-then (current_session p (cookie_token req) i.now) _ s _
          (run-current_session p (cookie_token req) i.now s)
        ∙ elim (Bool-cases (
            logout_refused (Pages.current_session p (cookie_token req) i.now s).0
              (csrf_field req))) [
                | inl e ↦ rw e refl
                | inr e ↦ rw e (run-drop_session (cookie_token req) _ _)
              ]

    pub run-list_page : run (list_page p req i m) s ≡ PageItems.list_page p req i m s
    unfolding run list_page PageItems.list_page list_items Items.list_items
    run-list_page =
        run-then (current_session p (cookie_token req) i.now) _ s _
          (run-current_session p (cookie_token req) i.now s)

    run-create_answer :
        (created : Option Item) (s' : App p)
        → run (create_answer p created) s' ≡ PageItems.create_answer p created s'
    unfolding run create_answer PageItems.create_answer list_items Items.list_items
    run-create_answer none s' = refl
    run-create_answer (some item) s' = refl

    pub run-create_page :
        ⦃percent : PercentLib⦄ → run (create_page p req i m) s ≡ PageItems.create_page p req i m s
    unfolding create_page PageItems.create_page PageItems.create_checked run
    run-create_page =
        let (name, description) = two_fields (bytes "name") (bytes "description") req in
        run-then (current_session p (cookie_token req) i.now) _ s _
          (run-current_session p (cookie_token req) i.now s)
        ∙ elim (Option-cases
            (refusal (Pages.current_session p (cookie_token req) i.now s).0 (csrf_field req))) [
              | inr (answer, e) ↦ rw (e, run, PageItems.create_page) refl
              | inl e ↦
                  rw (e, run, PageItems.create_page)
                    (run-then (create_item p i.uuid name description) _ _ _
                        (run-create_item p i.uuid name description _)
                      ∙ run-create_answer _ _)
            ]

    pub run-delete_page : run (delete_page p req i m) s ≡ PageItems.delete_page p req i m s
    unfolding run delete_page PageItems.delete_page PageItems.delete_checked delete_item
        Items.delete_item
    run-delete_page =
        run-then (current_session p (cookie_token req) i.now) _ s _
          (run-current_session p (cookie_token req) i.now s)
        ∙ elim (Option-cases
            (refusal (Pages.current_session p (cookie_token req) i.now s).0 (csrf_field req))) [
              | inr (answer, e) ↦ rw (e, run, PageItems.delete_page) refl
              | inl e ↦ rw (e, run, PageItems.delete_page) refl
            ]
