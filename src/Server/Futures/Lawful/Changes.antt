-- ===== src/Server/Futures/Lawful/Changes.antt =====
-- The two pages that change items, statement by statement.
use multithreaded.Base.{Option, none, some, Option-cases, inl, inr}
use multithreaded.Base.Text.{Str, bytes}
use multithreaded.Database.Items.{Item}
use multithreaded.Http.Request.{HttpRequest, Utf8Lib}
use multithreaded.Http.Response.{HttpResponse, HttpLib}
use multithreaded.Middleware.Auth.{JwtLib}
use multithreaded.Server.Api.{JsonLib, path_id}
use multithreaded.Server.Application.{Platform, Inputs, App}
use multithreaded.Server.Futures.{Future, list_items, create_item, delete_item}
use multithreaded.Server.Futures.Handlers.{current_session, create_answer, create_page, delete_page}
use multithreaded.Server.Futures.Lawful.{Proper, Quiet, IsPrivileged, IsLawful}
use multithreaded.Server.Futures.Lawful.Admission.{current_session-Quietly}
use multithreaded.Server.Futures.Lawful.Pages.{after_session_Within, list_items-Within}
use multithreaded.Server.Futures.Lawful.Statements.{
  list_items-Quiet, create_item-Proper, delete_item-Proper, current_session-Quiet,
}
use multithreaded.Server.Pages.{cookie_token, refusal, csrf_field}
use multithreaded.Server.Pages.Forms.{PercentLib, two_fields}
use multithreaded.Server.Program.{done, ◌>>=◌}
use multithreaded.Server.Program.Laws.{
  Always, Always->>=, Always-map, done-Always, Within, Within->>=, done-Within, Until, done-Until,
}
use multithreaded.Server.Pages.Kept.{ItemsKept}
use multithreaded.Templates.{TemplateLib}

module _ ⦃http : HttpLib⦄ ⦃utf8 : Utf8Lib⦄ ⦃jwt : JwtLib⦄ ⦃serde : JsonLib⦄ ⦃tera : TemplateLib⦄
    (p : Platform) (req : HttpRequest) where
  -- The lookup of the session, and then the answer of the checks or what follows them.
  abbrev checked : Inputs → Future p HttpResponse → Future p HttpResponse
  checked i rest = do
    session ← current_session p (cookie_token req) i.now
    elim (refusal session (csrf_field req)) [ some answer ↦ done answer | none ↦ rest ]

  checked-Within :
      (i : Inputs) (rest : Future p HttpResponse) → Within 2 rest → Within 4 (checked i rest)
  checked-Within i rest h = after_session_Within p req i _ (λ found.
      elim (Option-cases (refusal found (csrf_field req))) [
        | inl e ↦ rw e h
        | inr (answer, e) ↦ rw e (done-Within (App p) 2 answer)
      ])

  checked-Proper :
      (i : Inputs) (rest : Future p HttpResponse)
      → Always (Proper p i.uuid) rest
      → Always (Proper p i.uuid) (checked i rest)
  checked-Proper i rest h =
      let session = current_session p (cookie_token req) i.now in
      Always->>= (Proper p i.uuid) session _
        (Always-map (Quiet p i.uuid) (Proper p i.uuid) session (λ s s' q. q.0)
          (current_session-Quiet p i.uuid (cookie_token req) i.now))
        (λ found. elim (Option-cases (refusal found (csrf_field req))) [
          | inl e ↦ rw e h
          | inr (answer, e) ↦ rw e (done-Always (Proper p i.uuid) answer)
        ])

  checked-Until :
      (i : Inputs) (rest : Future p HttpResponse)
      → Until (IsPrivileged p req i) (ItemsKept p) (checked i rest)
  checked-Until i rest = current_session-Quietly p req i _ (λ found h.
      elim (Option-cases (refusal found (csrf_field req))) [
        | inl e ↦ absurd (h e)
        | inr (answer, e) ↦ rw e (done-Until (IsPrivileged p req i) (ItemsKept p) answer)
      ])

  create_answer-Within : (created : Option Item) → Within 1 (create_answer p created)
  unfolding create_answer
  create_answer-Within none =
      Within->>= 1 0 (list_items p) _ (list_items-Within p) (λ o. done-Within (App p) 0 _)
  create_answer-Within (some item) = done-Within (App p) 1 _

  create_answer-Proper :
      (own : Str) (created : Option Item) → Always (Proper p own) (create_answer p created)
  unfolding create_answer
  create_answer-Proper own (some item) = done-Always (Proper p own) _
  create_answer-Proper own none =
      Always->>= (Proper p own) (list_items p) _
        (Always-map (Quiet p own) (Proper p own) (list_items p) (λ s s' q. q.0)
          (list_items-Quiet p own))
        (λ o. done-Always (Proper p own) _)

  create_item-Within : (id name description : Str) → Within 1 (create_item p id name description)
  unfolding create_item Within
  create_item-Within id name description = λ s. tt

  delete_item-Within : (id : Str) → Within 1 (delete_item p id)
  unfolding delete_item Within
  delete_item-Within id = λ s. tt

  pub create_page-IsLawful : ⦃percent : PercentLib⦄ → IsLawful p req (create_page p req)
  unfolding create_page
  create_page-IsLawful =
      let (name, description) = two_fields (bytes "name") (bytes "description") req in
      record {
        bounded = λ i m. checked-Within i _ (
            Within->>= 1 1 (create_item p i.uuid name description) _
              (create_item-Within i.uuid name description) create_answer-Within);
        proper = λ i m. checked-Proper i _ (
            Always->>= (Proper p i.uuid) (create_item p i.uuid name description) _
              (create_item-Proper p i.uuid i.uuid name description) (create_answer-Proper i.uuid));
        guarded = λ i m. checked-Until i _;
      }

  pub delete_page-IsLawful : IsLawful p req (delete_page p req)
  unfolding delete_page
  delete_page-IsLawful = record {
    bounded = λ i m. checked-Within i _ (
        Within->>= 1 1 (delete_item p (path_id req)) _ (delete_item-Within (path_id req))
          (λ o. done-Within (App p) 1 _));
    proper = λ i m. checked-Proper i _ (
        Always->>= (Proper p i.uuid) (delete_item p (path_id req)) _
          (delete_item-Proper p i.uuid (path_id req)) (λ o. done-Always (Proper p i.uuid) _));
    guarded = λ i m. checked-Until i _;
  }
