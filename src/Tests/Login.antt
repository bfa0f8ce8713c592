-- ===== src/Tests/Login.antt =====
-- A login over the tables in memory, and a request with its session.
use multithreaded.Base.{◌≡◌, refl, true, none, some, [], arith, if◌then◌else◌}
use multithreaded.Base.Text.{bytes, str_eq, split, trim, trim_start, strip_prefix, find_map}
use multithreaded.Database.Users.{put, verify_user}
use multithreaded.Http.Request.{HttpRequest, form_param}
use multithreaded.Metrics as Metrics
use multithreaded.Server.Application.{Inputs, App}
use multithreaded.Server.Pages.{cookie_token, csrf_field}
use multithreaded.Server.Pages.Forms.{split_once, two_fields}
use multithreaded.Server.Pages.Guarded.{IsGenuine}
use multithreaded.Server.Pages.Handlers.{login}
use multithreaded.Server.Pages.Login.{login-IsGenuine}
use multithreaded.Session.{extract_session_cookie}
use multithreaded.Tests.Accounts as Accounts
use multithreaded.Tests.Administration as Administration
use multithreaded.Tests.Application.{lenient, utf8, percent, tera, platform, inputs}
use multithreaded.Tests.Sessions as Sessions

abbrev app : App platform
app = record {
  sessions = Sessions.empty;
  users = put (bytes "admin") (bytes "secret") Accounts.no_users;
  items = Administration.stocked;
}

abbrev credentials : HttpRequest
credentials = record {
  method = bytes "POST";
  path = bytes "/ui/login";
  query = none;
  headers = λ name. none;
  entries = [];
  body = bytes "username=admin&password=secret";
  path_params = [];
}

abbrev next : HttpRequest
next = record credentials {
  path = bytes "/ui/items/7/delete";
  headers = λ name. if str_eq name (bytes "cookie") then some (bytes "session=u") else none;
  body = bytes "_csrf=v";
}

-- Half an hour later.
abbrev later : Inputs
later = record inputs { now = 1900 }

verified :
    (verify_user Accounts.plain Accounts.memory
      (two_fields (bytes "username") (bytes "password") credentials).0
      (two_fields (bytes "username") (bytes "password") credentials).1
      app.users).0
    ≡ some true
unfolding verify_user two_fields split_once bytes str_eq split
verified = refl

carried : cookie_token next ≡ some (bytes "u")
unfolding cookie_token extract_session_cookie bytes str_eq split trim trim_start strip_prefix
    find_map
carried = refl

sent : csrf_field next ≡ bytes "v"
unfolding csrf_field form_param bytes str_eq split find_map
sent = refl

login-IsGenuine_example :
    IsGenuine platform next later (login platform true credentials inputs Metrics.new app).1
login-IsGenuine_example =
    login-IsGenuine platform true credentials next inputs later Metrics.new app verified refl
      carried sent (omega arith)
