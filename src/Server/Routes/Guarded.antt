-- ===== src/Server/Routes/Guarded.antt =====
-- What each handler leaves as it is, and what it takes to change the items.
pub mod Router
use multithreaded.Base.{
  ℕ, ◌≡◌, refl, sym, ◌∙◌, ap, Bool, true, false, Option, none, some, Bool-cases, Option-cases, inl,
  inr, ◌⊎◌, arith, List, [], ◌∷◌, ◌++◌, All,
}
use multithreaded.Base.Text.{Str, bytes}
use multithreaded.Config.{ServerConfig}
use multithreaded.Database.Items.{ItemsTable, list_items, get_item}
use multithreaded.Database.Users.{verify_user}
use multithreaded.Http.Request.{HttpRequest, Utf8Lib, form_param}
use multithreaded.Http.Response.{HttpResponse, HttpLib}
use multithreaded.Http.Router.{Params, RouteEntry, add, dispatch, any_method}
use multithreaded.Http.Router.Sound.{IsSound, add-IsSound, dispatch-carries}
use multithreaded.Metrics.{Metrics}
use multithreaded.Middleware.Auth.{JwtLib}
use multithreaded.Proxy.{ProxyLib}
use multithreaded.Server.Api.{JsonLib, rejected, get_items, get_one, post_item, delete_one}
use multithreaded.Server.Api.Guarded.{IsAuthorized, Guards, admin-Guards}
use multithreaded.Server.Application.{Platform, Inputs, App, Answer, Handler}
use multithreaded.Server.Pages.{cookie_token, csrf_field}
use multithreaded.Server.Pages.Forms.{PercentLib, two_fields}
use multithreaded.Server.Pages.Guarded.{IsGenuine}
use multithreaded.Server.Pages.Guarded as Pages
use multithreaded.Server.Pages.Kept.{
  Kept, UsersKept, ItemsKept, list_items-rows, verify_user-rows, home-Kept, metrics_page-Kept,
  logout-Kept, list_page-Kept, login-Kept, create_page-UsersKept, delete_page-UsersKept,
}
use multithreaded.Server.Pages.Handlers.{ui, home, login_page, login, logout, metrics_page}
use multithreaded.Server.Pages.Items.{list_page, create_page, delete_page}
use multithreaded.Server.Routes.{
  on_items, Table, itself, item_routes, base_routes, page_routes, proxy_routes, build_router,
  answer,
}
use multithreaded.Templates.{TemplateLib}
use multithreaded.Server.Routes.Public.{
  root, health, echo, fib_route, static_file, auth_token, metrics_text, proxied,
}

module _ ⦃http : HttpLib⦄ ⦃utf8 : Utf8Lib⦄ ⦃serde : JsonLib⦄ ⦃jwt : JwtLib⦄ (p : Platform) where
  -- The accounts are as before, and so are the items, unless the request is authorized by a token
  -- or genuine by its session.
  abbrev pub Keeps : HttpRequest → Inputs → App p → App p → Type 0
  Keeps req i s s' =
      UsersKept p s s' × (ItemsKept p s s' ⊎ (IsAuthorized req i.now ⊎ IsGenuine p req i s))

  -- So whatever the inputs and the state.
  abbrev pub Guarded : HttpRequest → Answer p → Type 0
  Guarded req a = (i : Inputs) (m : Metrics) (s : App p) → Keeps req i s (a i m s).1

  pub IsGenuine-carries :
      (req : HttpRequest) (params : Params) (i : Inputs) (s : App p)
      → IsGenuine p (record req { path_params = params }) i s
      → IsGenuine p req i s
  unfolding cookie_token csrf_field form_param
  IsGenuine-carries req params i s g = record {
    token = g.token;
    session = g.session;
    carried = g.carried;
    alive = g.alive;
    matching = g.matching;
  }

  pub IsAuthorized-carries :
      (req : HttpRequest) (params : Params) (now : ℕ)
      → IsAuthorized (record req { path_params = params }) now
      → IsAuthorized req now
  IsAuthorized-carries req params now a = record {
    token = a.token;
    claims = a.claims;
    carried = a.carried;
    verifies = a.verifies;
  }

  sum_carries :
      {A : Type 0} (req : HttpRequest) (params : Params) (i : Inputs) (s : App p)
      → A
        ⊎ (IsAuthorized (record req { path_params = params }) i.now
            ⊎ IsGenuine p (record req { path_params = params }) i s)
      → A ⊎ (IsAuthorized req i.now ⊎ IsGenuine p req i s)
  sum_carries req params i s (inl k) = inl k
  sum_carries req params i s (inr (inl t)) = inr (inl (IsAuthorized-carries req params i.now t))
  sum_carries req params i s (inr (inr g)) = inr (inr (IsGenuine-carries req params i s g))

  pub Guarded-carries :
      (req : HttpRequest) (params : Params) (a : Answer p)
      → Guarded (record req { path_params = params }) a
      → Guarded req a
  Guarded-carries req params a h i m s =
      let (users, rest) = h i m s in (users, sum_carries req params i s rest)

  -- A handler that keeps both tables is guarded.
  pub Kept-Guarded :
      (handler : Handler p)
      → ((req : HttpRequest) (i : Inputs) (m : Metrics) (s : App p)
          → Kept p s (handler req i m s).1)
      → (req : HttpRequest) → Guarded req (handler req)
  Kept-Guarded handler kept req i m s = let (users, items) = kept req i m s in (users, inl items)

  pub get_items-Guarded :
      (req : HttpRequest) → Guarded req (λ i m. on_items p (get_items p.items) req)
  unfolding get_items
  get_items-Guarded req i m s = (refl, inl (list_items-rows p s.items))

  pub get_one-Guarded : (req : HttpRequest) → Guarded req (λ i m. on_items p (get_one p.items) req)
  unfolding get_one get_item
  get_one-Guarded req i m s = (refl, inl (p.items.select_rows _ s.items))

  admin_kept :
      (req : HttpRequest) (i : Inputs) (s : App p) (r : HttpResponse × p.items.Table)
      → Guards p.items req i.now s.items r
      → (p.items.rows r.1 ≡ p.items.rows s.items) ⊎ (IsAuthorized req i.now ⊎ IsGenuine p req i s)
  admin_kept req i s r (inl a) = inr (inl a)
  admin_kept req i s r (inr (_, e)) = inl (ap p.items.rows e)

  pub post_item-Guarded :
      (req : HttpRequest) → Guarded req (λ i m. on_items p (post_item p.items i.uuid i.now) req)
  post_item-Guarded req i m s =
      (refl, admin_kept req i s _ (admin-Guards p.items i.uuid i.now req s.items).0)

  pub delete_one-Guarded :
      (req : HttpRequest) → Guarded req (λ i m. on_items p (delete_one p.items i.now) req)
  delete_one-Guarded req i m s =
      (refl, admin_kept req i s _ (admin-Guards p.items i.uuid i.now req s.items).1)

  pub auth_token-Guarded : (req : HttpRequest) → Guarded req (auth_token p req)
  unfolding auth_token
  auth_token-Guarded req i m s = elim (Option-cases (serde.parse_login req.body)) [
    | inl e ↦ rw (e, auth_token) (refl, inl refl)
    | inr ((username, password), e) ↦
        rw (e, auth_token) (verify_user-rows p username password s.users, inl refl)
  ]

  module _ ⦃percent : PercentLib⦄ ⦃tera : TemplateLib⦄ ⦃reqwest : ProxyLib⦄ where
    page_sum :
        {A : Type 0} (req : HttpRequest) (i : Inputs) (s : App p)
        → A ⊎ IsGenuine p req i s
        → A ⊎ (IsAuthorized req i.now ⊎ IsGenuine p req i s)
    page_sum req i s (inl a) = inl a
    page_sum req i s (inr g) = inr (inr g)

    pub create_page-Guarded : (req : HttpRequest) → Guarded req (create_page p req)
    create_page-Guarded req i m s =
        (create_page-UsersKept p req i m s, page_sum req i s (Pages.create_page-Guards p req i m s))

    pub delete_page-Guarded : (req : HttpRequest) → Guarded req (delete_page p req)
    delete_page-Guarded req i m s =
        (delete_page-UsersKept p req i m s, page_sum req i s (Pages.delete_page-Guards p req i m s))
