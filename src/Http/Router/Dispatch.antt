-- ===== src/Http/Router/Dispatch.antt =====
-- Which handler `dispatch` runs, and when it answers 404 or 405.
use multithreaded.Base.{
  ◌≡◌, refl, true, false, none, some, List, [], ◌∷◌, ◌++◌, arith, All, Option-cases, Bool-cases,
  inl, inr,
}
use multithreaded.Base.Text.{bytes}
use multithreaded.Http.Request.{HttpRequest}
use multithreaded.Http.Response.{HttpResponse, HttpLib, text, empty, not_found, method_not_allowed}
use multithreaded.Http.Router.{Params, RouteEntry, match_path, method_ok, dispatch_loop, dispatch}

module _ {R : Type 0} (request : HttpRequest) where
  abbrev pub Misses : RouteEntry R → Type 0
  Misses route = match_path route.segments request.path ≡ none

  -- The route's pattern matches or not, but its method is another.
  abbrev pub IsPassed : RouteEntry R → Type 0
  IsPassed route =
      (params : Params)
      → match_path route.segments request.path ≡ some params
      → method_ok route request.method ≡ false

  -- The answers that the rules in the documentation of `dispatch` allow.
  pub data Answers ⦃http : HttpLib⦄ (reply : HttpResponse → R) (routes : List (RouteEntry R))
      : R → Type 0 where
    -- The first route whose pattern and method both match runs its handler on the captures.
    handled :
        (before after : List (RouteEntry R)) (route : RouteEntry R) (params : Params) {r : R}
        → routes ≡ before ++ route ∷ after
        → All IsPassed before
        → match_path route.segments request.path ≡ some params
        → method_ok route request.method ≡ true
        → r ≡ route.handler (record request { path_params = params })
        → Answers reply routes r
    -- Some pattern matches, but no such route has the method.
    wrong_method :
        (before after : List (RouteEntry R)) (route : RouteEntry R) (params : Params) {r : R}
        → routes ≡ before ++ route ∷ after
        → match_path route.segments request.path ≡ some params
        → All IsPassed routes
        → r ≡ reply (empty method_not_allowed)
        → Answers reply routes r
    -- No pattern matches.
    unmatched :
        {r : R}
        → All Misses routes
        → r ≡ reply (text not_found (bytes "404 Not Found\n"))
        → Answers reply routes r

module _ ⦃http : HttpLib⦄ {R : Type 0} (reply : HttpResponse → R) (request : HttpRequest) where
  Answers-miss :
      (route : RouteEntry R) (routes : List (RouteEntry R)) {r : R}
      → Misses request route
      → Answers request reply routes r
      → Answers request reply (route ∷ routes) r
  Answers-miss route routes m (handled before after found params e p q k a) =
      handled (route ∷ before) after found params (ground arith) ((λ ps h. cc), p) q k a
  Answers-miss route routes m (wrong_method before after found params e q p a) =
      wrong_method (route ∷ before) after found params (ground arith) q ((λ ps h. cc), p) a
  Answers-miss route routes m (unmatched p a) = unmatched (m, p) a

  -- The flag is set, and a handler is still looked for.
  data Rest (routes : List (RouteEntry R)) : R → Type 0 where
    found :
        (before after : List (RouteEntry R)) (route : RouteEntry R) (params : Params) {r : R}
        → routes ≡ before ++ route ∷ after
        → All (IsPassed request) before
        → match_path route.segments request.path ≡ some params
        → method_ok route request.method ≡ true
        → r ≡ route.handler (record request { path_params = params })
        → Rest routes r
    exhausted :
        {r : R}
        → All (IsPassed request) routes
        → r ≡ reply (empty method_not_allowed)
        → Rest routes r

  Rest-pass :
      (route : RouteEntry R) (routes : List (RouteEntry R)) {r : R}
      → IsPassed request route
      → Rest routes r
      → Rest (route ∷ routes) r
  Rest-pass route routes m (found before after r params e p q k a) =
      found (route ∷ before) after r params (ground arith) (m, p) q k a
  Rest-pass route routes m (exhausted p a) = exhausted (m, p) a

  Rest-Answers :
      (route : RouteEntry R) (routes : List (RouteEntry R)) (params : Params) {r : R}
      → match_path route.segments request.path ≡ some params
      → method_ok route request.method ≡ false
      → Rest routes r
      → Answers request reply (route ∷ routes) r
  Rest-Answers route routes params m n (found before after r ps e p q k a) =
      handled (route ∷ before) after r ps (ground arith) ((λ _ _. n), p) q k a
  Rest-Answers route routes params m n (exhausted p a) =
      wrong_method [] routes route params refl m ((λ _ _. n), p) a

  dispatch_loop-Rest :
      (routes : List (RouteEntry R)) → Rest routes (dispatch_loop reply request true routes)
  unfolding dispatch_loop
  dispatch_loop-Rest [] = exhausted tt refl
  dispatch_loop-Rest (route ∷ routes) =
      elim (Option-cases (match_path route.segments request.path)) [
        | inl e ↦
            rw (e, dispatch_loop) (Rest-pass route routes (λ ps h. cc) (dispatch_loop-Rest routes))
        | inr (params, e) ↦ elim (Bool-cases (method_ok route request.method)) [
          | inl k ↦ rw (e, k, dispatch_loop) (found [] routes route params refl tt e k refl)
          | inr k ↦
              rw (e, k, dispatch_loop)
                (Rest-pass route routes (λ _ _. k) (dispatch_loop-Rest routes))
        ]
      ]

  dispatch_loop-Answers :
      (routes : List (RouteEntry R))
      → Answers request reply routes (dispatch_loop reply request false routes)
  unfolding dispatch_loop
  dispatch_loop-Answers [] = unmatched tt refl
  dispatch_loop-Answers (route ∷ routes) =
      elim (Option-cases (match_path route.segments request.path)) [
        | inl e ↦ rw (e, dispatch_loop) (Answers-miss route routes e (dispatch_loop-Answers routes))
        | inr (params, e) ↦ elim (Bool-cases (method_ok route request.method)) [
          | inl k ↦ rw (e, k, dispatch_loop) (handled [] routes route params refl tt e k refl)
          | inr k ↦
              rw (e, k, dispatch_loop)
                (Rest-Answers route routes params e k (dispatch_loop-Rest routes))
        ]
      ]

  -- Whatever the routes and the request, `dispatch` answers by its rules: the first route, in
  -- registration order, whose pattern and method match runs its handler with the captured
  -- parameters; with a matching pattern but no method the answer is 405; else it is 404.
  pub dispatch-Answers :
      (routes : List (RouteEntry R)) → Answers request reply routes (dispatch reply routes request)
  unfolding dispatch
  dispatch-Answers routes = dispatch_loop-Answers routes
