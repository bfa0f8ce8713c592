-- ===== src/Server/Futures.antt =====
-- src/server/connection.rs and what its handlers await: the operations of src/session/mod.rs and
-- src/db/models.rs as programs, with one step for each statement on the database.
pub mod Handlers
pub mod Routes
pub mod Alone
pub mod Lawful
pub mod Held
use multithreaded.Base.{
  is_some, ℕ, ◌+◌, Bool, true, false, Option, none, some, List, if◌then◌else◌, ltb,
}
use multithreaded.Base.Text.{Str}
use multithreaded.Database.Items.{Item}
use multithreaded.Database.Users.{verify_stored}
use multithreaded.Http.Request.{HttpRequest}
use multithreaded.Http.Response.{HttpResponse}
use multithreaded.Metrics.{Metrics}
use multithreaded.Server.Application.{Platform, Inputs, App}
use multithreaded.Server.Program.{Program, done, step, ◌>>=◌, statement}
use multithreaded.Session.{Session, session_ttl_secs}

module _ (p : Platform) where
  -- A future on the shared state, and what a handler is: the future that answers a request.
  abbrev pub Future : Type 0 → Type 0
  Future A = Program (App p) A

  abbrev pub Awaited : Type 0
  Awaited = Inputs → Metrics → Future HttpResponse

  abbrev pub Async : Type 0
  Async = HttpRequest → Awaited

  -- A statement on one of the three tables.
  abbrev pub on_sessions : {A : Type 0} → (p.sessions.Table → A × p.sessions.Table) → Future A
  on_sessions op = statement (λ s. let (a, t) = op s.sessions in (a, record s { sessions = t }))

  abbrev pub on_users : {A : Type 0} → (p.users.Table → A × p.users.Table) → Future A
  on_users op = statement (λ s. let (a, t) = op s.users in (a, record s { users = t }))

  abbrev pub on_items : {A : Type 0} → (p.items.Table → A × p.items.Table) → Future A
  on_items op = statement (λ s. let (a, t) = op s.items in (a, record s { items = t }))

  -- `SessionStore::create`
  unfoldable pub create : Str → Str → Str → ℕ → Future (Option Str)
  create token csrf_token username now = do
    let session : Session = record { username = username; csrf_token = csrf_token }
    inserted ← on_sessions (p.sessions.insert token session (now + session_ttl_secs))
    done (if inserted then some token else none)

  -- `SessionStore::get`, after the `SELECT`.
  unfoldable pub get_selected : Str → ℕ → Option (Option Session) → Future (Option (Option Session))
  get_selected token now none = done none
  get_selected token now (some none) = do
    deleted ← on_sessions (p.sessions.delete token)
    done (if deleted then some none else none)
  get_selected token now (some (some session)) = do
    updated ← on_sessions (p.sessions.update (now + session_ttl_secs) token)
    done (if updated then some (some session) else none)

  unfoldable pub get : Str → ℕ → Future (Option (Option Session))
  unfolding get_selected
  get token now = do
    selected ← on_sessions (p.sessions.select token now)
    get_selected token now selected

  -- `SessionStore::remove`
  unfoldable pub remove : Str → Future Bool
  remove token = on_sessions (p.sessions.delete token)

  unfoldable pub verify_user : Str → Str → Future (Option Bool)
  verify_user username password = do
    stored ← on_users (p.users.select username)
    done (verify_stored p.argon2 p.users password stored)

  unfoldable pub list_items : Future (Option (List Item))
  list_items = on_items p.items.select_all

  unfoldable pub get_item : Str → Future (Option (Option Item))
  get_item id = on_items (p.items.select id)

  unfoldable pub create_item : Str → Str → Str → Future (Option Item)
  create_item id name description = do
    let item : Item = record { id = id; name = name; description = description }
    inserted ← on_items (p.items.insert item)
    done (if inserted then some item else none)

  unfoldable pub delete_item : Str → Future (Option Bool)
  delete_item id = do
    result ← on_items (p.items.delete id)
    done (elim result [ none ↦ none | some affected ↦ some (ltb 0 affected) ])
