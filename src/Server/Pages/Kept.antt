-- ===== src/Server/Pages/Kept.antt =====
-- What the pages leave as it is: the accounts, and most of them the items.
use multithreaded.Base.{
  ◌≡◌, refl, ◌∙◌, ap, true, false, Bool-cases, Option, Option-cases, none, some, inl, inr, Bool,
}
use multithreaded.Base.Text.{Str, bytes}
use multithreaded.Database.Items.{Item, list_items}
use multithreaded.Database.Users.{verify_user}
use multithreaded.Http.Request.{HttpRequest, Utf8Lib}
use multithreaded.Http.Response.{HttpLib}
use multithreaded.Metrics.{Metrics}
use multithreaded.Server.Application.{Platform, Inputs, App}
use multithreaded.Server.Pages.{cookie_token, current_session, refusal, logout_refused, csrf_field}
use multithreaded.Server.Pages.Forms.{PercentLib, two_fields}
use multithreaded.Server.Pages.Guarded.{current_session-items, current_session-users}
use multithreaded.Server.Pages.Handlers.{
  home, metrics_page, login_verified, login, drop_session, logout,
}
use multithreaded.Server.Pages.Items.{list_page, create_answer, create_page, delete_page}
use multithreaded.Templates.{TemplateLib}

module _ (p : Platform) where
  abbrev pub UsersKept : App p → App p → Type 0
  UsersKept s s' = p.users.rows s'.users ≡ p.users.rows s.users

  abbrev pub ItemsKept : App p → App p → Type 0
  ItemsKept s s' = p.items.rows s'.items ≡ p.items.rows s.items

  abbrev pub Kept : App p → App p → Type 0
  Kept s s' = UsersKept s s' × ItemsKept s s'

  current_session-Kept :
      (token : Option Str) (now : _) (s : App p) → Kept s (current_session p token now s).1
  current_session-Kept token now s = (
    ap p.users.rows (current_session-users p token now s),
    ap p.items.rows (current_session-items p token now s),
  )

  pub list_items-rows : (t : p.items.Table) → p.items.rows (list_items p.items t).1 ≡ p.items.rows t
  unfolding list_items
  list_items-rows t = p.items.select_all_rows t

  pub verify_user-rows :
      (username password : Str) (t : p.users.Table)
      → p.users.rows (verify_user p.argon2 p.users username password t).1 ≡ p.users.rows t
  unfolding verify_user
  verify_user-rows username password t = p.users.select_rows username t

  module _ ⦃http : HttpLib⦄ ⦃tera : TemplateLib⦄ (req : HttpRequest) (i : Inputs) (m : Metrics)
      (s : App p) where
    pub home-Kept : Kept s (home p req i m s).1
    unfolding home
    home-Kept = current_session-Kept (cookie_token req) i.now s

    pub metrics_page-Kept : Kept s (metrics_page p req i m s).1
    unfolding metrics_page
    metrics_page-Kept = current_session-Kept (cookie_token req) i.now s

    drop_session-Kept :
        (token : Option Str) (s' : App p) → Kept s s' → Kept s (drop_session p token s')
    unfolding drop_session
    drop_session-Kept none s' h = h
    drop_session-Kept (some token) s' h = h

    login_verified-Kept :
        (cookie_secure : Bool) (username : Str) (verified : Option Bool) (s' : App p)
        → Kept s s'
        → Kept s (login_verified p cookie_secure username verified i s').1
    unfolding login_verified
    login_verified-Kept cookie_secure username none s' h = h
    login_verified-Kept cookie_secure username (some true) s' h = h
    login_verified-Kept cookie_secure username (some false) s' h = h

    module _ ⦃utf8 : Utf8Lib⦄ where
      pub logout-Kept : Kept s (logout p req i m s).1
      unfolding logout
      logout-Kept =
          let kept = current_session-Kept (cookie_token req) i.now s in
          elim (Bool-cases
            (logout_refused (current_session p (cookie_token req) i.now s).0 (csrf_field req))) [
              | inl e ↦ rw (e, logout) kept
              | inr e ↦ rw (e, logout) (drop_session-Kept (cookie_token req) _ kept)
            ]

      pub list_page-Kept : Kept s (list_page p req i m s).1
      unfolding list_page
      list_page-Kept =
          let (users, items) = current_session-Kept (cookie_token req) i.now s in
          (users, list_items-rows _ ∙ items)

      pub delete_page-UsersKept : UsersKept s (delete_page p req i m s).1
      unfolding delete_page
      delete_page-UsersKept =
          let (users, items) = current_session-Kept (cookie_token req) i.now s in
          elim (Option-cases
            (refusal (current_session p (cookie_token req) i.now s).0 (csrf_field req))) [
              | inl e ↦ rw (e, delete_page) users
              | inr (answer, e) ↦ rw (e, delete_page) users
            ]

      create_answer-UsersKept :
          (created : Option Item) (s' : App p)
          → UsersKept s s'
          → UsersKept s (create_answer p created s').1
      unfolding create_answer
      create_answer-UsersKept none s' h = h
      create_answer-UsersKept (some item) s' h = h

      module _ ⦃percent : PercentLib⦄ where
        pub login-Kept : (cookie_secure : Bool) → Kept s (login p cookie_secure req i m s).1
        unfolding login
        login-Kept cookie_secure =
            let (username, password) = two_fields (bytes "username") (bytes "password") req in
            login_verified-Kept cookie_secure username _ _
              (verify_user-rows username password s.users, refl)

        pub create_page-UsersKept : UsersKept s (create_page p req i m s).1
        unfolding create_page
        create_page-UsersKept =
            let (users, items) = current_session-Kept (cookie_token req) i.now s in
            elim (Option-cases
              (refusal (current_session p (cookie_token req) i.now s).0 (csrf_field req))) [
                | inl e ↦ rw (e, create_page) (create_answer-UsersKept _ _ users)
                | inr (answer, e) ↦ rw (e, create_page) users
              ]
