-- ===== src/Server/Futures/Lawful/Handlers.antt =====
-- Every handler of `build_router`, statement by statement.
use multithreaded.Base.{◌≡◌, refl, none, some, Option-cases, inl, inr, ◌⊎◌}
use multithreaded.Http.Request.{HttpRequest, Utf8Lib}
use multithreaded.Http.Response.{HttpResponse, HttpLib}
use multithreaded.Metrics.{Metrics}
use multithreaded.Middleware.Auth.{JwtLib}
use multithreaded.Server.Api.{JsonLib, rejected, path_id}
use multithreaded.Server.Api.Guarded.{IsAuthorized, accepted, refused, rejected-Checked, Checked}
use multithreaded.Server.Application.{Platform, Inputs, App, Handler}
use multithreaded.Server.Futures.{
  Awaited, verify_user, list_items, get_item, create_item, delete_item,
}
use multithreaded.Server.Futures.Handlers.{auth_token, get_items, get_one, post_item, delete_one}
use multithreaded.Server.Futures.Lawful.{Proper, Quiet, IsPrivileged, IsLawful}
use multithreaded.Server.Futures.Lawful.Statements.{
  verify_user-Quiet, list_items-Quiet, get_item-Quiet, create_item-Proper, delete_item-Proper,
}
use multithreaded.Server.Futures.Routes.{at_once}
use multithreaded.Server.Pages.Kept.{ItemsKept}
use multithreaded.Server.Program.Laws.{Always, Always-map, Always-Until, Within, Until}

module _ ⦃http : HttpLib⦄ ⦃utf8 : Utf8Lib⦄ ⦃jwt : JwtLib⦄ ⦃serde : JsonLib⦄ (p : Platform) where
  -- A handler none of whose statements changes an item or an account.
  pub Quiet-IsLawful :
      (req : HttpRequest) (a : Awaited p)
      → ((i : Inputs) (m : Metrics) → Always (Quiet p i.uuid) (a i m))
      → ((i : Inputs) (m : Metrics) → Within 4 (a i m))
      → IsLawful p req a
  Quiet-IsLawful req a quiet within = record {
    bounded = within;
    proper =
        λ i m. Always-map (Quiet p i.uuid) (Proper p i.uuid) (a i m) (λ s s' q. q.0) (quiet i m);
    guarded = λ i m.
        Always-Until (IsPrivileged p req i) (ItemsKept p) (a i m)
          (Always-map (Quiet p i.uuid) (ItemsKept p) (a i m) (λ s s' q. q.1) (quiet i m));
  }

  pub at_once-IsLawful :
      (handler : Handler p)
      → ((req : HttpRequest) (i : Inputs) (m : Metrics) (s : App p) → (handler req i m s).1 ≡ s)
      → (req : HttpRequest) → IsLawful p req (at_once p handler req)
  unfolding Always Within
  at_once-IsLawful handler h req =
      Quiet-IsLawful req (at_once p handler req)
        (λ i m s. (rw (h req i m s) ((refl, λ other ne. inr refl), refl), tt)) (λ i m s. tt)

  pub auth_token-IsLawful : (req : HttpRequest) → IsLawful p req (auth_token p req)
  unfolding auth_token verify_user Always Within
  auth_token-IsLawful req =
      Quiet-IsLawful req (auth_token p req)
        (λ i m. elim (Option-cases (serde.parse_login req.body)) [
          | inl e ↦ rw (e, auth_token) tt
          | inr ((username, password), e) ↦
              rw (e, auth_token)
                (λ (s : App p). ((verify_user-Quiet p i.uuid username password s).0, tt))
        ])
        (λ i m. elim (Option-cases (serde.parse_login req.body)) [
          | inl e ↦ rw (e, auth_token) tt
          | inr (found, e) ↦ rw (e, auth_token) (λ (s : App p). tt)
        ])

  pub get_items-IsLawful : (req : HttpRequest) → IsLawful p req (get_items p req)
  unfolding get_items list_items Always Within
  get_items-IsLawful req =
      Quiet-IsLawful req (get_items p req) (λ i m s. ((list_items-Quiet p i.uuid s).0, tt))
        (λ i m s. tt)

  pub get_one-IsLawful : (req : HttpRequest) → IsLawful p req (get_one p req)
  unfolding get_one get_item Always Within
  get_one-IsLawful req =
      Quiet-IsLawful req (get_one p req) (λ i m s. ((get_item-Quiet p i.uuid _ s).0, tt))
        (λ i m s. tt)

  -- The routes that want a token: without one they answer at once.
  rejected-Privileged :
      (req : HttpRequest) (i : Inputs)
      → ((answer : HttpResponse) × (rejected req i.now ≡ some answer))
        ⊎ ((rejected req i.now ≡ none) × IsAuthorized req i.now)
  rejected-Privileged req i = by (rejected-Checked req i.now)
    where
      by :
          Checked req i.now (rejected req i.now)
          → ((answer : HttpResponse) × (rejected req i.now ≡ some answer))
            ⊎ ((rejected req i.now ≡ none) × IsAuthorized req i.now)
      by (accepted a e) = inr (e, a)
      by (refused r h e) = inl (r, e)

  pub post_item-IsLawful : (req : HttpRequest) → IsLawful p req (post_item p req)
  unfolding post_item create_item Always Within Until
  post_item-IsLawful req = record {
    bounded = λ i m. elim (rejected-Privileged req i) [
      | inl (answer, e) ↦ rw (e, post_item) tt
      | inr (e, a) ↦ elim (Option-cases (serde.parse_item req.body)) [
        | inl q ↦ rw (e, post_item) (rw (q, post_item) tt)
        | inr (payload, q) ↦ rw (e, post_item) (rw (q, post_item) (λ (s : App p). tt))
      ]
    ];
    proper = λ i m. elim (rejected-Privileged req i) [
      | inl (answer, e) ↦ rw (e, post_item) tt
      | inr (e, a) ↦ elim (Option-cases (serde.parse_item req.body)) [
        | inl q ↦ rw (e, post_item) (rw (q, post_item) tt)
        | inr (payload, q) ↦
            rw (e, post_item)
              (rw (q, post_item)
                (λ (s : App p).
                  ((create_item-Proper p i.uuid i.uuid payload.name payload.description s).0, tt)))
      ]
    ];
    guarded = λ i m. elim (rejected-Privileged req i) [
      | inl (answer, e) ↦ rw (e, post_item) tt
      | inr (e, a) ↦ elim (Option-cases (serde.parse_item req.body)) [
        | inl q ↦ rw (e, post_item) (rw (q, post_item) tt)
        | inr (payload, q) ↦ rw (e, post_item) (rw (q, post_item) (λ (s : App p). inl (inl a)))
      ]
    ];
  }

  pub delete_one-IsLawful : (req : HttpRequest) → IsLawful p req (delete_one p req)
  unfolding delete_one delete_item Always Within Until
  delete_one-IsLawful req = record {
    bounded = λ i m. elim (rejected-Privileged req i) [
      | inl (answer, e) ↦ rw (e, delete_one) tt
      | inr (e, a) ↦ rw (e, delete_one) (λ (s : App p). tt)
    ];
    proper = λ i m. elim (rejected-Privileged req i) [
      | inl (answer, e) ↦ rw (e, delete_one) tt
      | inr (e, a) ↦
          rw (e, delete_one) (λ (s : App p). ((delete_item-Proper p i.uuid (path_id req) s).0, tt))
    ];
    guarded = λ i m. elim (rejected-Privileged req i) [
      | inl (answer, e) ↦ rw (e, delete_one) tt
      | inr (e, a) ↦ rw (e, delete_one) (λ (s : App p). inl (inl a))
    ];
  }
