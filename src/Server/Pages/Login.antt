-- ===== src/Server/Pages/Login.antt =====
-- What a login is good for.
use multithreaded.Base.{ℕ, ◌+◌, ◌<◌, ◌≡◌, refl, sym, Bool, true, some, lt→ltb}
use multithreaded.Base.Text.{Str, bytes, str_eq_self}
use multithreaded.Database.Users.{verify_user}
use multithreaded.Http.Request.{HttpRequest, Utf8Lib}
use multithreaded.Http.Response.{HttpLib}
use multithreaded.Metrics.{Metrics}
use multithreaded.Server.Application.{Platform, Inputs, App}
use multithreaded.Server.Pages.{cookie_token, csrf_field}
use multithreaded.Server.Pages.Forms.{PercentLib, two_fields}
use multithreaded.Server.Pages.Guarded.{IsGenuine}
use multithreaded.Server.Pages.Handlers.{logged_in, login_verified, login}
use multithreaded.Session.{Session, live, SessionsTable, create, session_ttl_secs}
use multithreaded.Templates.{TemplateLib}

module _ (db : SessionsTable) where
  -- A session that has been created is in its row.
  create-live :
      (token csrf_token username : Str) (now later : ℕ) (t : db.Table)
      → (db.insert token
          (record { username = username; csrf_token = csrf_token })
          (now + session_ttl_secs)
          t).0
        ≡ true
      → later < now + session_ttl_secs
      → live later (db.rows (create db token csrf_token username now t).1 token)
        ≡ some (record { username = username; csrf_token = csrf_token })
  unfolding create live
  create-live token csrf_token username now later t ok before =
      rw (ok, create)
        (rw (db.insert_ok _ _ _ _ ok)
          (rw (str_eq_self token, live) (rw (lt→ltb later (now + session_ttl_secs) before) refl)))

module _ ⦃http : HttpLib⦄ ⦃tera : TemplateLib⦄ ⦃utf8 : Utf8Lib⦄ ⦃percent : PercentLib⦄
    (p : Platform) where
  -- The session that a login is about to store.
  abbrev new_session : HttpRequest → Inputs → Session
  new_session req i = record {
    username = (two_fields (bytes "username") (bytes "password") req).0;
    csrf_token = i.second_uuid;
  }

  -- A login whose name and password verify, and whose session the database stores, is good for an
  -- hour: for a request that carries the new token in its cookie and the new CSRF token in its form,
  -- the session is alive and the token is the session's.
  pub login-IsGenuine :
      (cookie_secure : Bool) (req req' : HttpRequest) (i i' : Inputs) (m : Metrics) (s : App p)
      → (verify_user p.argon2 p.users
          (new_session req i).username
          (two_fields (bytes "username") (bytes "password") req).1
          s.users).0
        ≡ some true
      → (p.sessions.insert i.uuid (new_session req i) (i.now + session_ttl_secs) s.sessions).0
        ≡ true
      → cookie_token req' ≡ some i.uuid
      → csrf_field req' ≡ i.second_uuid
      → i'.now < i.now + session_ttl_secs
      → IsGenuine p req' i' (login p cookie_secure req i m s).1
  unfolding login login_verified logged_in
  login-IsGenuine cookie_secure req req' i i' m s v stored carried sent before =
      rw (v, login)
        (record {
          token = i.uuid;
          session = new_session req i;
          carried = carried;
          alive =
              create-live p.sessions i.uuid i.second_uuid _ i.now i'.now s.sessions stored before;
          matching = sym sent;
        })
