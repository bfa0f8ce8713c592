-- ===== src/Server/Futures/Handlers.antt =====
-- The handlers of `build_router`, each as the statements that it awaits.
use multithreaded.Base.{ℕ, Bool, true, false, Option, none, some, []}
use multithreaded.Base.Text.{Str, bytes, insert}
use multithreaded.Database.Items.{Item}
use multithreaded.Http.Request.{Utf8Lib, query_param}
use multithreaded.Http.Response.{HttpResponse, HttpLib, empty, header, json, ok, internal_error}
use multithreaded.Http.Response as Response
use multithreaded.Middleware.Auth.{JwtLib}
use multithreaded.Server.Api.{
  JsonLib, error_response, rejected, item_response, deleted_response, path_id,
}
use multithreaded.Server.Application.{Platform, Inputs}
use multithreaded.Server.Futures.{
  Future, Async, create, get, remove, verify_user, list_items, get_item, create_item, delete_item,
}
use multithreaded.Server.Pages.{
  cookie_token, flatten, user_context, redirect_to, csrf_failed, refusal, logout_refused,
  csrf_field,
}
use multithreaded.Server.Pages.Forms.{PercentLib, two_fields}
use multithreaded.Server.Pages.Handlers.{metrics_context, session_cookie}
use multithreaded.Server.Pages.Items.{list_or_empty, with_flash}
use multithreaded.Server.Program.{done, ◌>>=◌}
use multithreaded.Server.Routes.Public.{token_answer}
use multithreaded.Session.{Session}
use multithreaded.Templates.{string, items, TemplateLib, render}

-- The session of a cookie.
unfoldable pub current_session : (p : Platform) → Option Str → ℕ → Future p (Option Session)
current_session p none now = done none
current_session p (some token) now = do found ← get p token now; done (flatten found)

module _ ⦃http : HttpLib⦄ ⦃jwt : JwtLib⦄ ⦃serde : JsonLib⦄ (p : Platform) where
  -- POST /auth/token
  unfoldable pub auth_token : Async p
  auth_token req i m = elim (serde.parse_login req.body) [
    | none ↦ done (error_response 400 (bytes "invalid JSON body"))
    | some (username, password) ↦ do
      verified ← verify_user p username password
      done (token_answer p username i.now verified)
  ]

  -- GET /api/items
  unfoldable pub get_items : Async p
  get_items req i m = do
    listed ← list_items p
    done (elim listed [ none ↦ empty internal_error | some list ↦ json ok (serde.items_text list) ])

  -- GET /api/items/:id
  unfoldable pub get_one : Async p
  get_one req i m = do item ← get_item p (path_id req); done (item_response item)

  -- POST /api/admin/items
  unfoldable pub post_item : Async p
  post_item req i m = elim (rejected req i.now) [
    | some answer ↦ done answer
    | none ↦ elim (serde.parse_item req.body) [
      | none ↦ done (error_response 400 (bytes "invalid JSON body"))
      | some payload ↦ do
        created ← create_item p i.uuid payload.name payload.description
        done (elim created [
          | none ↦ empty internal_error
          | some item ↦ json (Response.new 201) (serde.item_text item)
        ])
    ]
  ]

  -- DELETE /api/admin/items/:id
  unfoldable pub delete_one : Async p
  delete_one req i m = elim (rejected req i.now) [
    | some answer ↦ done answer
    | none ↦ do removed ← delete_item p (path_id req); done (deleted_response removed)
  ]

module _ ⦃http : HttpLib⦄ ⦃tera : TemplateLib⦄ (p : Platform) where
  -- GET /ui/index
  unfoldable pub home : Async p
  home req i m = do
    session ← current_session p (cookie_token req) i.now
    done (render (bytes "index.html") (user_context session))

  -- GET /ui/metrics
  unfoldable pub metrics_page : Async p
  metrics_page req i m = do
    session ← current_session p (cookie_token req) i.now
    done (render (bytes "metrics.html") (metrics_context p m (user_context session)))

  -- After the check of the password.
  unfoldable pub login_verified : Bool → Str → Inputs → Option Bool → Future p HttpResponse
  login_verified cookie_secure username i none = done (empty internal_error)
  login_verified cookie_secure username i (some true) = do
    created ← create p i.uuid i.second_uuid username i.now
    done (elim created [
      | some token ↦ empty (
          header (header (Response.new 302) (bytes "location") (bytes "/ui/items"))
            (bytes "set-cookie") (session_cookie p token cookie_secure))
      | none ↦ empty internal_error
    ])
  login_verified cookie_secure username i (some false) = done (
      render (bytes "login.html") (
        insert (bytes "flash_type") (string (bytes "error"))
          (insert (bytes "flash") (string (bytes "Invalid username or password.")) [])))

  -- The logout after its check.
  unfoldable pub drop_session : Option Str → Future p (Unit {0})
  drop_session none = done tt
  drop_session (some token) = do removed ← remove p token; done tt

  module _ ⦃utf8 : Utf8Lib⦄ where
    -- POST /ui/login
    unfoldable pub login : ⦃percent : PercentLib⦄ → Bool → Async p
    unfolding login_verified
    login cookie_secure req i m =
        let (username, password) = two_fields (bytes "username") (bytes "password") req in
        do
          verified ← verify_user p username password
          login_verified cookie_secure username i verified

    -- POST /ui/logout
    unfoldable pub logout : Async p
    unfolding drop_session
    logout req i m = do
      session ← current_session p (cookie_token req) i.now
      elim (logout_refused session (csrf_field req)) [
        | true ↦ done csrf_failed
        | false ↦ do
          _ ← drop_session (cookie_token req)
          done (
              empty (
                header (header (Response.new 302) (bytes "location") (bytes "/ui/login"))
                  (bytes "set-cookie") (bytes "session=; Max-Age=0; Path=/")))
      ]

    -- GET /ui/items
    unfoldable pub list_page : Async p
    list_page req i m = do
      session ← current_session p (cookie_token req) i.now
      listed ← list_items p
      done (
          render (bytes "items.html") (
            with_flash (query_param req (bytes "flash"))
              (insert (bytes "items") (items (list_or_empty listed)) (user_context session))))

    -- After the creation.
    unfoldable pub create_answer : Option Item → Future p HttpResponse
    create_answer (some item) = done (redirect_to (bytes "/ui/items?flash=Item+created"))
    create_answer none = do
      listed ← list_items p
      done (
          render (bytes "items.html") (
            insert (bytes "flash_type") (string (bytes "error")) (
              insert (bytes "flash") (string (bytes "Failed to create item."))
                (insert (bytes "items") (items (list_or_empty listed)) []))))

    -- POST /ui/items
    unfoldable pub create_page : ⦃percent : PercentLib⦄ → Async p
    unfolding create_answer
    create_page req i m = do
      session ← current_session p (cookie_token req) i.now
      elim (refusal session (csrf_field req)) [
        | some answer ↦ done answer
        | none ↦
            let (name, description) = two_fields (bytes "name") (bytes "description") req in
            do created ← create_item p i.uuid name description; create_answer created
      ]

    -- POST /ui/items/:id/delete
    unfoldable pub delete_page : Async p
    delete_page req i m = do
      session ← current_session p (cookie_token req) i.now
      elim (refusal session (csrf_field req)) [
        | some answer ↦ done answer
        | none ↦ do
          removed ← delete_item p (path_id req)
          done (elim removed [
            | some _ ↦ redirect_to (bytes "/ui/items?flash=Item+deleted")
            | none ↦ redirect_to (bytes "/ui/items")
          ])
      ]
