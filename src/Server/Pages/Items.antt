-- ===== src/Server/Pages/Items.antt =====
-- The handlers of the HTML routes on items.
use multithreaded.Base.{Option, none, some, List, []}
use multithreaded.Base.Text.{Str, bytes, insert}
use multithreaded.Database.Items.{list_items, create_item, delete_item, Item}
use multithreaded.Http.Request.{HttpRequest, Utf8Lib, query_param}
use multithreaded.Http.Response.{HttpResponse, HttpLib}
use multithreaded.Server.Api.{path_id}
use multithreaded.Server.Application.{Platform, Inputs, App, Handler}
use multithreaded.Server.Pages.{
  cookie_token, current_session, user_context, redirect_to, refusal, csrf_field,
}
use multithreaded.Server.Pages.Forms.{PercentLib, two_fields}
use multithreaded.Templates.{Context, string, items, TemplateLib, render}

-- `list_items(..).await.unwrap_or_default()`
abbrev pub list_or_empty : Option (List Item) → List Item
list_or_empty none = []
list_or_empty (some list) = list

-- A flash message of the query, if there is one.
abbrev pub with_flash : Option Str → Context → Context
with_flash none ctx = ctx
with_flash (some msg) ctx = insert (bytes "flash") (string msg) ctx

module _ ⦃http : HttpLib⦄ ⦃tera : TemplateLib⦄ ⦃utf8 : Utf8Lib⦄ (p : Platform) where
  -- GET /ui/items
  unfoldable pub list_page : Handler p
  list_page req i m s =
      let (session, s') = current_session p (cookie_token req) i.now s in
      let (listed, t) = list_items p.items s'.items in
      (
        render (bytes "items.html") (
            with_flash (query_param req (bytes "flash"))
              (insert (bytes "items") (items (list_or_empty listed)) (user_context session))),
        record s' { items = t },
      )

  -- After the creation: on an error the page is rendered with the items as they are.
  unfoldable pub create_answer : Option Item → App p → HttpResponse × App p
  create_answer (some item) s = (redirect_to (bytes "/ui/items?flash=Item+created"), s)
  create_answer none s =
      let (listed, t) = list_items p.items s.items in
      (
        render (bytes "items.html") (
            insert (bytes "flash_type") (string (bytes "error")) (
              insert (bytes "flash") (string (bytes "Failed to create item."))
                (insert (bytes "items") (items (list_or_empty listed)) []))),
        record s { items = t },
      )

  -- POST /ui/items, after the checks.
  unfoldable pub create_checked :
      ⦃percent : PercentLib⦄ → HttpRequest → Inputs → App p → HttpResponse × App p
  unfolding create_answer
  create_checked req i s =
      let (name, description) = two_fields (bytes "name") (bytes "description") req in
      let (created, t) = create_item p.items i.uuid name description s.items in
      create_answer created (record s { items = t })

  -- POST /ui/items
  unfoldable pub create_page : ⦃percent : PercentLib⦄ → Handler p
  unfolding create_checked
  create_page req i m s =
      let (session, s') = current_session p (cookie_token req) i.now s in
      elim (refusal session (csrf_field req)) [
        | some answer ↦ (answer, s')
        | none ↦ create_checked req i s'
      ]

  -- POST /ui/items/:id/delete, after the checks.
  unfoldable pub delete_checked : HttpRequest → App p → HttpResponse × App p
  delete_checked req s =
      let (removed, t) = delete_item p.items (path_id req) s.items in
      (
        elim removed [
          | some _ ↦ redirect_to (bytes "/ui/items?flash=Item+deleted")
          | none ↦ redirect_to (bytes "/ui/items")
        ],
        record s { items = t },
      )

  -- POST /ui/items/:id/delete
  unfoldable pub delete_page : Handler p
  unfolding delete_checked
  delete_page req i m s =
      let (session, s') = current_session p (cookie_token req) i.now s in
      elim (refusal session (csrf_field req)) [
        | some answer ↦ (answer, s')
        | none ↦ delete_checked req s'
      ]
