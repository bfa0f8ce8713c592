-- ===== src/Server/Pages/Admitted.antt =====
-- What a genuine request gets from the pages that change items.
use multithreaded.Base.{
  ℕ, ◌+◌, ◌≡◌, refl, ◌∙◌, Option, none, some, Bool-cases, inl, inr, ◌⊎◌, true, false, ap,
  Option-cases,
}
use multithreaded.Base.Text.{Str, bytes, str_eq_self}
use multithreaded.Database.Items.{Item, Rows, put, create_item, delete_item}
use multithreaded.Server.Api.{path_id}
use multithreaded.Http.Request.{HttpRequest, Utf8Lib}
use multithreaded.Http.Response.{HttpLib}
use multithreaded.Metrics.{Metrics}
use multithreaded.Server.Application.{Platform, Inputs, App}
use multithreaded.Server.Pages.{
  cookie_token, current_session, flatten, refusal, redirect_to, csrf_field,
}
use multithreaded.Server.Pages.Forms.{PercentLib, two_fields}
use multithreaded.Server.Pages.Guarded.{IsGenuine}
use multithreaded.Server.Pages.Items.{
  create_page, create_checked, create_answer, delete_page, delete_checked,
}
use multithreaded.Session.{Session, live, SessionsTable, get, get_selected, session_ttl_secs}
use multithreaded.Templates.{TemplateLib}

-- The `SELECT` fails, or the `UPDATE` that follows.
abbrev pub LookupFails : (db : SessionsTable) → Str → ℕ → db.Table → Type 0
LookupFails db token now t =
    ((db.select token now t).0 ≡ none)
    ⊎ ((db.update (now + session_ttl_secs) token (db.select token now t).1).0 ≡ false)

-- The lookup of a session that is alive finds it, or a statement has failed.
get-found :
    (db : SessionsTable) (token : Str) (now : ℕ) (t : db.Table) (session : Session)
    → live now (db.rows t token) ≡ some session
    → (flatten (get db token now t).0 ≡ some session)
      ⊎ (LookupFails db token now t × (flatten (get db token now t).0 ≡ none))
unfolding get get_selected
get-found db token now t session h = elim (Option-cases ((db.select token now t).0)) [
  | inl e ↦ inr (inl e, rw (e, get_selected) refl)
  | inr (found, e) ↦
      let alive : found ≡ some session = db.select_ok token now t found e ∙ h in
      elim (Bool-cases ((db.update (now + session_ttl_secs) token (db.select token now t).1).0)) [
        | inl ok ↦ inl (rw (e, alive, get_selected) (rw ok refl))
        | inr ok ↦ inr (inr ok, rw (e, alive, get_selected) (rw ok refl))
      ]
]

-- The item that the form asks for.
abbrev pub wanted : ⦃utf8 : Utf8Lib⦄ → ⦃percent : PercentLib⦄ → HttpRequest → Inputs → Item
wanted req i =
    let (name, description) = two_fields (bytes "name") (bytes "description") req in
    record { id = i.uuid; name = name; description = description }

module _ ⦃http : HttpLib⦄ ⦃utf8 : Utf8Lib⦄ (p : Platform) where
  abbrev after : HttpRequest → Inputs → App p → Option Session × App p
  after req i s = current_session p (cookie_token req) i.now s

  refusal-admits :
      (req : HttpRequest) (i : Inputs) (s : App p) (g : IsGenuine p req i s)
      → (refusal (after req i s).0 (csrf_field req) ≡ none)
        ⊎ (LookupFails p.sessions g.token i.now s.sessions
            × (refusal (after req i s).0 (csrf_field req) ≡ some (redirect_to (bytes "/ui/login"))))
  unfolding refusal current_session
  refusal-admits req i s g =
      elim (get-found p.sessions g.token i.now s.sessions g.session g.alive) [
        | inl q ↦ inl (
            rw (g.carried, refusal)
              (rw (q, refusal) (rw (g.matching) (rw (str_eq_self (csrf_field req)) refl))))
        | inr (fails, q) ↦ inr (fails, rw (g.carried, refusal) (rw (q, refusal) refl))
      ]

  same_items :
      (token : Option Str) (now : ℕ) (s : App p) → (current_session p token now s).1.items ≡ s.items
  unfolding current_session
  same_items none now s = refl
  same_items (some token) now s = refl

  put-same : (id : Str) (row : Option Item) (rows : Rows) → put id row rows id ≡ row
  put-same id row rows = rw (str_eq_self id) refl

  create_checked-row :
      ⦃tera : TemplateLib⦄
      → ⦃percent : PercentLib⦄ → (req : HttpRequest) (i : Inputs) (s : App p)
      → (p.items.insert (wanted req i) s.items).0 ≡ true
      → ((create_checked p req i s).0 ≡ redirect_to (bytes "/ui/items?flash=Item+created"))
        × (p.items.rows (create_checked p req i s).1.items i.uuid ≡ some (wanted req i))
  unfolding create_checked create_item create_answer
  create_checked-row req i s h = (
    rw (h, create_checked) refl,
    rw (h, create_checked)
        (ap (λ (r : Rows). r i.uuid) (p.items.insert_ok (wanted req i) s.items h)
          ∙ put-same i.uuid (some (wanted req i)) (p.items.rows s.items)),
  )

  delete_checked-row :
      ⦃tera : TemplateLib⦄
      → (req : HttpRequest) (s : App p) (affected : ℕ)
      → (p.items.delete (path_id req) s.items).0 ≡ some affected
      → ((delete_checked p req s).0 ≡ redirect_to (bytes "/ui/items?flash=Item+deleted"))
        × (p.items.rows (delete_checked p req s).1.items (path_id req) ≡ none)
  unfolding delete_checked delete_item
  delete_checked-row req s affected h = (
    rw (h, delete_checked) refl,
    ap (λ (r : Rows). r (path_id req)) ((p.items.delete_ok (path_id req) s.items affected h).1)
        ∙ put-same (path_id req) none (p.items.rows s.items),
  )

  -- A genuine request, with the cookie of a session that is alive and that session's CSRF token in
  -- its form, on a database that takes the new item and carries out the deletion. Unless a statement
  -- of the lookup of its session fails, and then both pages send it to the login, it is admitted to
  -- the two pages that change items: after the one the item of the form's two fields is in the table
  -- under the new UUID, after the other no item is under the id of the path, and each leads back to
  -- the list with its message.
  pub genuine_admitted :
      ⦃tera : TemplateLib⦄
      → ⦃percent : PercentLib⦄
      → (req : HttpRequest) (i : Inputs) (m : Metrics) (s : App p) (affected : ℕ)
        (g : IsGenuine p req i s)
      → (p.items.insert (wanted req i) s.items).0 ≡ true
      → (p.items.delete (path_id req) s.items).0 ≡ some affected
      → let (created, s₁) = create_page p req i m s in
        let (deleted, s₂) = delete_page p req i m s in
        ((created ≡ redirect_to (bytes "/ui/items?flash=Item+created"))
          × (p.items.rows s₁.items i.uuid ≡ some (wanted req i))
          × (deleted ≡ redirect_to (bytes "/ui/items?flash=Item+deleted"))
          × (p.items.rows s₂.items (path_id req) ≡ none))
        ⊎ (LookupFails p.sessions g.token i.now s.sessions
            × (created ≡ redirect_to (bytes "/ui/login"))
            × (deleted ≡ redirect_to (bytes "/ui/login")))
  unfolding create_page delete_page
  genuine_admitted req i m s affected g h k = elim (refusal-admits req i s g) [
    | inl q ↦
        let same = same_items (cookie_token req) i.now s in
        let (created, row) = create_checked-row req i (after req i s).1 (rw same h) in
        let (deleted, gone) = delete_checked-row req (after req i s).1 affected (rw same k) in
        inl (rw (q, create_page) (rw (q, delete_page) (created, row, deleted, gone)))
    | inr (fails, q) ↦ inr (rw (q, create_page) (rw (q, delete_page) (fails, refl, refl)))
  ]
