-- ===== src/Server/Api/Lifecycle.antt =====
-- An item that is created is found, and one that is deleted is not.
use multithreaded.Base.{
  is_some, ℕ, ◌≡◌, ◌≢◌, arith, refl, ◌∙◌, ap, true, Option, none, some, Option-cases, inl, inr, ◌⊎◌,
}
use multithreaded.Base.Text.{Str, bytes, str_eq_self}
use multithreaded.Database.Items.{
  Item, CreateItem, ItemsTable, Rows, put, create_item, get_item, delete_item,
}
use multithreaded.Http.Request.{HttpRequest}
use multithreaded.Http.Response.{HttpResponse, HttpLib, json, ok, empty, internal_error}
use multithreaded.Http.Response as Response
use multithreaded.Middleware.Auth.{JwtLib}
use multithreaded.Server.Api.{
  JsonLib, error_response, item_response, deleted_response, get_one, post_authorized, post_item,
  delete_one, path_id,
}
use multithreaded.Server.Api.Guarded.{IsAuthorized, authorized_passes}

module _ ⦃http : HttpLib⦄ ⦃jwt : JwtLib⦄ ⦃serde : JsonLib⦄ (db : ItemsTable) where
  open db use {Table, select, insert, delete}

  -- What a lookup answers: that of the row, or an error.
  get_one-row :
      (req : HttpRequest) (t : Table) (row : Option Item)
      → db.rows t (path_id req) ≡ row
      → ((get_one db req t).0 ≡ item_response (some row))
        ⊎ ((get_one db req t).0 ≡ empty internal_error)
  unfolding get_one get_item item_response
  get_one-row req t row e = elim (Option-cases ((select (path_id req) t).0)) [
    | inl q ↦ inr (rw (q, get_one) refl)
    | inr (o, q) ↦ inl (rw (q, db.select_ok (path_id req) t o q, e, get_one) refl)
  ]

  put-same : (id key : Str) (row : Option Item) (rows : Rows) → key ≡ id → put id row rows key ≡ row
  put-same id key row rows e = rw (e, str_eq_self id) refl

  posted :
      (id : Str) (now : ℕ) (req : HttpRequest) (payload : CreateItem) (t : Table)
      → let item : Item = record {
        id = id;
        name = payload.name;
        description = payload.description;
      } in
        IsAuthorized req now
        → serde.parse_item req.body ≡ some payload
        → (insert item t).0 ≡ true
        → post_item db id now req t
          ≡ (json (Response.new 201) (serde.item_text item), (insert item t).1)
  unfolding post_item post_authorized create_item
  posted id now req payload t a p i =
      rw (authorized_passes req now a, post_item)
        (rw (p, post_authorized) (rw (i, create_item) refl))

  deleted :
      (now : ℕ) (req : HttpRequest) (affected : ℕ) (t : Table)
      → IsAuthorized req now
      → (delete (path_id req) t).0 ≡ some affected
      → delete_one db now req t
        ≡ (deleted_response (some (is_some (db.rows t (path_id req)))), (delete (path_id req) t).1)
  unfolding delete_one delete_item
  deleted now req affected t a d =
      let (removed, left) = db.delete_ok (path_id req) t affected d in
      rw (authorized_passes req now a, delete_one)
        (rw (d, delete_item)
          (ap (λ b. (deleted_response (some b), (delete (path_id req) t).1)) removed))

  deleted_response-row :
      (row : Option Item)
      → let response = deleted_response (some (is_some row)) in
        ((row ≢ none) × (response ≡ json (Response.new 200) serde.deleted_text))
        ⊎ ((row ≡ none)
            × (response ≡ json (Response.new 404) (serde.error_text (bytes "item not found"))))
  unfolding deleted_response error_response
  deleted_response-row none = inr (refl, refl)
  deleted_response-row (some item) = inl ((λ h. absurd (ground (arith, h))), refl)

  -- A request with a valid token and a body that parses, on a database that takes the row: the
  -- answer is 201 with the item, and a lookup of its id answers 200 with it, or an error.
  pub post_item-get_one :
      (id : Str) (now : ℕ) (req look : HttpRequest) (payload : CreateItem) (t : Table)
      → let item : Item = record {
        id = id;
        name = payload.name;
        description = payload.description;
      } in
        let (response, t') = post_item db id now req t in
        IsAuthorized req now
        → serde.parse_item req.body ≡ some payload
        → path_id look ≡ id
        → (insert item t).0 ≡ true
        → (response ≡ json (Response.new 201) (serde.item_text item))
          × (((get_one db look t').0 ≡ json ok (serde.item_text item))
              ⊎ ((get_one db look t').0 ≡ empty internal_error))
  unfolding item_response
  post_item-get_one id now req look payload t a p e i =
      let item : Item = record {
        id = id;
        name = payload.name;
        description = payload.description;
      } in
      rw (posted id now req payload t a p i) (
        refl,
        get_one-row look ((insert item t).1) (some item) (
            ap (λ (r : Rows). r (path_id look)) (db.insert_ok item t i)
            ∙ put-same id (path_id look) (some item) (db.rows t) e),
      )

  -- A request with a valid token on a database that carries out the deletion: the answer is 200 if
  -- there was an item of that id and 404 otherwise, each with its JSON body, and a lookup of the id then answers 404, or an
  -- error.
  pub delete_one-get_one :
      (now : ℕ) (req look : HttpRequest) (affected : ℕ) (t : Table)
      → let (response, t') = delete_one db now req t in
        IsAuthorized req now
        → path_id look ≡ path_id req
        → (delete (path_id req) t).0 ≡ some affected
        → (((db.rows t (path_id req) ≢ none)
              × (response ≡ json (Response.new 200) serde.deleted_text))
            ⊎ ((db.rows t (path_id req) ≡ none)
                × (response ≡ json (Response.new 404) (serde.error_text (bytes "item not found")))))
          × (((get_one db look t').0
                ≡ json (Response.new 404) (serde.error_text (bytes "item not found")))
              ⊎ ((get_one db look t').0 ≡ empty internal_error))
  unfolding item_response error_response
  delete_one-get_one now req look affected t a e d =
      let (removed, left) = db.delete_ok (path_id req) t affected d in
      rw (deleted now req affected t a d) (
        deleted_response-row (db.rows t (path_id req)),
        get_one-row look ((delete (path_id req) t).1) none (
            ap (λ (r : Rows). r (path_id look)) left
            ∙ put-same (path_id req) (path_id look) none (db.rows t) e),
      )
