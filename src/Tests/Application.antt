-- ===== src/Tests/Application.antt =====
-- The router of src/server/connection.rs over the tables in memory.
use multithreaded.Base.{◌≡◌, ◌⊎◌, refl, true, none, some, [], ◌∷◌, if◌then◌else◌}
use multithreaded.Base.Text.{bytes, str_eq, split, trim, trim_start, strip_prefix, find_map, lookup}
use multithreaded.Http.Request.{HttpRequest, Utf8Lib, form_param, path_param}
use multithreaded.Http.Response.{HttpLib}
use multithreaded.Metrics as Metrics
use multithreaded.Proxy.{ProxyLib, UpstreamResponse}
use multithreaded.Server.Api.{path_id}
use multithreaded.Server.Application.{Platform, Inputs, App}
use multithreaded.Server.Pages.{cookie_token, redirect_to, csrf_field}
use multithreaded.Server.Pages.Admitted.{LookupFails, wanted, genuine_admitted}
use multithreaded.Server.Pages.Guarded.{IsGenuine}
use multithreaded.Server.Pages.Items.{create_page, delete_page}
use multithreaded.Server.Fibonacci.{capped}
use multithreaded.Server.Routes.Public.{requested}
use multithreaded.Base.Decimal.{parse}
use multithreaded.Session.{live, extract_session_cookie}
use multithreaded.Server.Pages.Forms.{PercentLib}
use multithreaded.Server.Task.{returned}
use multithreaded.StaticFiles.{missing}
use multithreaded.Templates.{TemplateLib, html}
use multithreaded.Tests.Accounts as Accounts
use multithreaded.Tests.Administration.{plain_tokens, names, no_items, stocked}
use multithreaded.Tests.Administration as Administration
use multithreaded.Tests.Sessions as Sessions

instance abbrev pub lenient : HttpLib
lenient = record { accepts = λ _. true }

instance abbrev pub utf8 : Utf8Lib
utf8 = record { is_utf8 = λ s. true; from_utf8_lossy = λ s. s; ascii-is_utf8 = λ s h. refl }

instance abbrev pub percent : PercentLib
percent = record { decode_lossy = λ s. s }

instance abbrev pub tera : TemplateLib
tera = record { render = λ name ctx. html name }

abbrev upstream_answer : UpstreamResponse
upstream_answer = record {
  status = 200;
  headers = (bytes "connection", bytes "close") ∷ (bytes "etag", bytes "1") ∷ [];
  body = some (bytes "hi");
}

instance abbrev pub reqwest : ProxyLib
reqwest = record { is_method = λ m. true; send = λ r. some upstream_answer }

abbrev pub platform : Platform
platform = record {
  sessions = Sessions.memory;
  users = Accounts.memory;
  items = Administration.memory;
  argon2 = Accounts.plain;
}

abbrev pub app : App platform
app = record { sessions = Sessions.logged_in; users = Accounts.no_users; items = stocked }

-- The cookie of a session that is alive, with a token that is not the session's.
abbrev pub forged : HttpRequest
forged = record {
  method = bytes "POST";
  path = bytes "/ui/items/7/delete";
  query = none;
  headers = λ name. if str_eq name (bytes "cookie") then some (bytes "session=t") else none;
  entries = [];
  body = bytes "_csrf=x";
  path_params = [];
}

-- It is at 100 that the session is looked for.
abbrev pub inputs : Inputs
inputs = record {
  now = 100;
  uuid = bytes "u";
  second_uuid = bytes "v";
  blocking = returned tt;
  files = record { metadata = λ path. missing; open_file = λ path. missing };
}

-- The form has the token of the session.
abbrev pub genuine : HttpRequest
genuine = record forged { body = bytes "_csrf=c" }

-- The same without any item.
abbrev vacant : App platform
vacant = record app { items = no_items }

genuine-IsGenuine : IsGenuine platform genuine inputs vacant
unfolding cookie_token extract_session_cookie csrf_field form_param bytes str_eq split trim
    trim_start strip_prefix find_map live
genuine-IsGenuine = record {
  token = bytes "t";
  session = Sessions.alice;
  carried = refl;
  alive = refl;
  matching = refl;
}

genuine_admitted_example :
    let (created, s₁) = create_page platform genuine inputs Metrics.new vacant in
    let (deleted, s₂) = delete_page platform genuine inputs Metrics.new vacant in
    ((created ≡ redirect_to (bytes "/ui/items?flash=Item+created"))
      × (platform.items.rows s₁.items inputs.uuid ≡ some (wanted genuine inputs))
      × (deleted ≡ redirect_to (bytes "/ui/items?flash=Item+deleted"))
      × (platform.items.rows s₂.items (path_id genuine) ≡ none))
    ⊎ (LookupFails platform.sessions genuine-IsGenuine.token 100 vacant.sessions
        × (created ≡ redirect_to (bytes "/ui/login"))
        × (deleted ≡ redirect_to (bytes "/ui/login")))
genuine_admitted_example =
    genuine_admitted platform genuine inputs Metrics.new vacant 0 genuine-IsGenuine refl refl

abbrev seventh : HttpRequest
seventh = record forged { path_params = (bytes "n", bytes "7") ∷ [] }

asked : capped (requested (path_param seventh (bytes "n"))) ≡ 7
unfolding requested path_param lookup parse bytes str_eq
asked = refl
