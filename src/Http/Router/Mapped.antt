-- ===== src/Http/Router/Mapped.antt =====
-- `dispatch` looks only at the methods and patterns of the routes, never into what they answer.
use multithreaded.Base.{
  ◌≡◌, refl, ap, true, false, Bool, Option-cases, Bool-cases, inl, inr, List, [], ◌∷◌, map,
}
use multithreaded.Base.Text.{Str}
use multithreaded.Http.Request.{HttpRequest}
use multithreaded.Http.Response.{HttpResponse, HttpLib}
use multithreaded.Http.Router.{RouteEntry, add, dispatch, dispatch_loop, match_path, method_ok}

module _ {R R' : Type 0} (f : R → R') where
  -- The route with what it answers put through `f`.
  abbrev pub mapped : RouteEntry R → RouteEntry R'
  mapped route = record {
    method = route.method;
    segments = route.segments;
    handler = λ req. f (route.handler req);
  }

  pub mapped-add :
      (routes : List (RouteEntry R)) (method pattern : Str) (handler : HttpRequest → R)
      → map mapped (add routes method pattern handler)
        ≡ add (map mapped routes) method pattern (λ req. f (handler req))
  unfolding add
  mapped-add [] method pattern handler = refl
  mapped-add (r ∷ routes) method pattern handler =
      ap (λ rest. mapped r ∷ rest) (mapped-add routes method pattern handler)

  module _ ⦃http : HttpLib⦄ (reply : HttpResponse → R) (req : HttpRequest) where
    dispatch_loop-mapped :
        (any_path_matched : Bool) (routes : List (RouteEntry R))
        → f (dispatch_loop reply req any_path_matched routes)
          ≡ dispatch_loop (λ r. f (reply r)) req any_path_matched (map mapped routes)
    unfolding dispatch_loop method_ok
    dispatch_loop-mapped true [] = refl
    dispatch_loop-mapped false [] = refl
    dispatch_loop-mapped any_path_matched (route ∷ routes) =
        elim (Option-cases (match_path route.segments req.path)) [
          | inl e ↦ rw (e, dispatch_loop) (dispatch_loop-mapped any_path_matched routes)
          | inr (params, e) ↦ elim (Bool-cases (method_ok route req.method)) [
            | inl q ↦ rw (e, dispatch_loop) (rw (q, dispatch_loop) refl)
            | inr q ↦
                rw (e, dispatch_loop) (rw (q, dispatch_loop) (dispatch_loop-mapped true routes))
          ]
        ]

    pub dispatch-mapped :
        (routes : List (RouteEntry R))
        → f (dispatch reply routes req) ≡ dispatch (λ r. f (reply r)) (map mapped routes) req
    unfolding dispatch
    dispatch-mapped routes = dispatch_loop-mapped false routes
