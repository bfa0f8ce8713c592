-- ===== src/Server/Api.antt =====
-- src/server/connection.rs: the handlers of the JSON routes on items.
pub mod Guarded
pub mod Lifecycle
pub mod Tokens
use multithreaded.Base.{ℕ, Bool, true, false, Option, none, some, List, [], ◌∷◌, if◌then◌else◌}
use multithreaded.Base.Text.{Str, bytes}
use multithreaded.Database.Items.{
  Item, CreateItem, ItemsTable, list_items, get_item, create_item, delete_item,
}
use multithreaded.Http.Request.{HttpRequest, path_param}
use multithreaded.Http.Response.{
  HttpResponse, HttpLib, ResponseBuilder, json, empty, ok, internal_error,
}
use multithreaded.Http.Response as Response
use multithreaded.Middleware.Auth.{JwtLib, extract_bearer, verify_token}

-- serde_json: the text of each value that the handlers write, `none` where serialising fails, and
-- the payload that a body parses to.
pub record JsonLib : Type 0 where
  pub error_text : Str → Option Str
  pub deleted_text : Option Str
  pub item_text : Item → Option Str
  pub items_text : List Item → Option Str
  pub parse_item : Str → Option CreateItem
  pub token_text : Str → Option Str
  pub parse_login : Str → Option (Str × Str)

abbrev pub or_empty : Option Str → Str
or_empty none = []
or_empty (some s) = s

abbrev pub path_id : HttpRequest → Str
path_id req = or_empty (path_param req (bytes "id"))

module _ ⦃http : HttpLib⦄ ⦃jwt : JwtLib⦄ ⦃serde : JsonLib⦄ where
  unfoldable pub error_response : ℕ → Str → HttpResponse
  error_response status message = json (Response.new status) (serde.error_text message)

  -- The handler goes on with `none`; otherwise the answer.
  unfoldable pub rejected : HttpRequest → ℕ → Option HttpResponse
  unfolding error_response
  rejected req now = elim (extract_bearer (req.headers (bytes "authorization"))) [
    | none ↦ some (error_response 401 (bytes "missing Bearer token"))
    | some token ↦ elim (verify_token token now) [
      | some claims ↦ none
      | none ↦ some (error_response 401 (bytes "invalid or expired token"))
    ]
  ]

  unfoldable pub item_response : Option (Option Item) → HttpResponse
  unfolding error_response
  item_response none = empty internal_error
  item_response (some none) = error_response 404 (bytes "item not found")
  item_response (some (some item)) = json ok (serde.item_text item)

  unfoldable pub deleted_response : Option Bool → HttpResponse
  unfolding error_response
  deleted_response none = empty internal_error
  deleted_response (some true) = json ok serde.deleted_text
  deleted_response (some false) = error_response 404 (bytes "item not found")

module _ ⦃http : HttpLib⦄ ⦃jwt : JwtLib⦄ ⦃serde : JsonLib⦄ (db : ItemsTable) where
  open db use {Table}

  -- GET /api/items
  unfoldable pub get_items : HttpRequest → Table → HttpResponse × Table
  get_items req t =
      let (items, t') = list_items db t in
      (elim items [ none ↦ empty internal_error | some list ↦ json ok (serde.items_text list) ], t')

  -- GET /api/items/:id
  unfoldable pub get_one : HttpRequest → Table → HttpResponse × Table
  unfolding item_response
  get_one req t = let (item, t') = get_item db (path_id req) t in (item_response item, t')

  -- POST /api/admin/items, after the token; `id` is the new UUID.
  unfoldable pub post_authorized : Str → HttpRequest → Table → HttpResponse × Table
  unfolding error_response
  post_authorized id req t = elim (serde.parse_item req.body) [
    | none ↦ (error_response 400 (bytes "invalid JSON body"), t)
    | some payload ↦
        let (created, t') = create_item db id payload.name payload.description t in
        (
          elim created [
            | none ↦ empty internal_error
            | some item ↦ json (Response.new 201) (serde.item_text item)
          ],
          t',
        )
  ]

  unfoldable pub post_item : Str → ℕ → HttpRequest → Table → HttpResponse × Table
  unfolding rejected post_authorized
  post_item id now req t = elim (rejected req now) [
    | some answer ↦ (answer, t)
    | none ↦ post_authorized id req t
  ]

  -- DELETE /api/admin/items/:id
  unfoldable pub delete_one : ℕ → HttpRequest → Table → HttpResponse × Table
  unfolding rejected deleted_response
  delete_one now req t = elim (rejected req now) [
    | some answer ↦ (answer, t)
    | none ↦ let (removed, t') = delete_item db (path_id req) t in (deleted_response removed, t')
  ]
