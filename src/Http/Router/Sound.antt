-- ===== src/Http/Router/Sound.antt =====
-- What holds of every handler and of the dispatcher's own answers holds of what `dispatch` answers.
use multithreaded.Base.{List, [], ◌∷◌, ◌++◌, All}
use multithreaded.Base.Text.{Str}
use multithreaded.Http.Request.{HttpRequest}
use multithreaded.Http.Response.{HttpResponse, HttpLib}
use multithreaded.Http.Router.{Params, RouteEntry, add, dispatch}
use multithreaded.Http.Router.Dispatch.{Answers, handled, wrong_method, unmatched, dispatch-Answers}

module _ ⦃http : HttpLib⦄ {R : Type 0} (Q : HttpRequest → R → Type 0) where
  abbrev pub IsSound : RouteEntry R → Type 0
  IsSound route = (req : HttpRequest) → Q req (route.handler req)

  found_IsSound :
      (before after : List (RouteEntry R)) (route : RouteEntry R)
      → All IsSound (before ++ route ∷ after)
      → IsSound route
  found_IsSound [] after route (h, hs) = h
  found_IsSound (r ∷ before) after route (h, hs) = found_IsSound before after route hs

  pub add-IsSound :
      (routes : List (RouteEntry R)) (method pattern : Str) (handler : HttpRequest → R)
      → All IsSound routes
      → ((req : HttpRequest) → Q req (handler req))
      → All IsSound (add routes method pattern handler)
  unfolding add
  add-IsSound [] method pattern handler hs h = (h, tt)
  add-IsSound (r ∷ routes) method pattern handler (k, hs) h =
      (k, add-IsSound routes method pattern handler hs h)

  pub dispatch-carries :
      (reply : HttpResponse → R) (routes : List (RouteEntry R)) (req : HttpRequest)
      → ((r : HttpResponse) → Q req (reply r))
      → ((params : Params) (r : R) → Q (record req { path_params = params }) r → Q req r)
      → All IsSound routes
      → Q req (dispatch reply routes req)
  dispatch-carries reply routes req own carry hs = by (dispatch-Answers reply req routes)
    where
      by : Answers req reply routes (dispatch reply routes req) → Q req (dispatch reply routes req)
      by (handled before after route params e p q k a) = rw a (
          carry params _
            (found_IsSound before after route (rw e at hs) (record req { path_params = params })))
      by (wrong_method before after route params e q p a) = rw a (own _)
      by (unmatched p a) = rw a (own _)
