-- ===== src/Server/Interleaving.antt =====
-- The requests that src/server/connection.rs answers at the same time: the tasks of the runtime
-- take turns at each statement, in any order.
pub mod Steady
pub mod Cautious
pub mod Relying
pub mod Kept
pub mod Used
use multithreaded.Base.{ℕ, zero, suc, ◌≡◌, ◌⊎◌, some, get_elem?, List, [], ◌∷◌, ◌++◌}
use multithreaded.Config.{ServerConfig}
use multithreaded.Http.Request.{HttpRequest, Utf8Lib}
use multithreaded.Http.Response.{HttpResponse, HttpLib}
use multithreaded.Metrics.{Metrics}
use multithreaded.Middleware.Auth.{JwtLib}
use multithreaded.Proxy.{ProxyLib}
use multithreaded.Server.Api.{JsonLib}
use multithreaded.Server.Application.{Platform, Inputs, App}
use multithreaded.Server.Futures.{Future, Async}
use multithreaded.Server.Futures.Lawful.{IsPrivileged}
use multithreaded.Server.Pages.Forms.{PercentLib}
use multithreaded.Server.Program.{Program, done, step}
use multithreaded.Templates.{TemplateLib}

-- A request that is being answered, with what is left of its future, and for the record the states
-- that its statements have met so far, the last one first.
pub record Task (p : Platform) : Type 0 where
  pub request : HttpRequest
  pub inputs : Inputs
  pub future : Future p HttpResponse
  pub met : List (App p)

-- A request comes to the router; a task executes its next statement; a task is dropped, by the
-- timeout of the request or the end of its connection.
pub data Event : Type 0 where
  arrive : HttpRequest → Inputs → Metrics → Event
  advance cancel : ℕ → Event

pub record System (p : Platform) : Type 0 where
  pub app : App p
  pub tasks : List (Task p)

module _ (p : Platform) where
  unfoldable pub executed : Task p → Future p HttpResponse → App p → Task p × App p
  executed t (done response) s = (t, s)
  executed t (step f next) s = (record t { future = next s; met = s ∷ t.met }, f s)

  -- The next statement of a task.
  unfoldable pub poll : Task p → App p → Task p × App p
  unfolding executed
  poll t s = executed t t.future s

  unfoldable pub polled : ℕ → List (Task p) → App p → List (Task p) × App p
  unfolding poll
  polled k [] s = ([], s)
  polled zero (t ∷ tasks) s = let (t', s') = poll t s in (t' ∷ tasks, s')
  polled (suc k) (t ∷ tasks) s = let (tasks', s') = polled k tasks s in (t ∷ tasks', s')

  unfoldable pub dropped : ℕ → List (Task p) → List (Task p)
  dropped k [] = []
  dropped zero (t ∷ tasks) = tasks
  dropped (suc k) (t ∷ tasks) = t ∷ dropped k tasks

  module _ (serve : Async p) where
    unfoldable pub happen : Event → System p → System p
    unfolding polled dropped
    happen (arrive req i m) y =
        let t : Task p = record { request = req; inputs = i; future = serve req i m; met = [] } in
        record y { tasks = t ∷ y.tasks }
    happen (advance k) y =
        let (tasks, app) = polled k y.tasks y.app in record { app = app; tasks = tasks }
    happen (cancel k) y = record y { tasks = dropped k y.tasks }

    unfoldable pub interleaved : List Event → System p → System p
    unfolding happen
    interleaved [] y = y
    interleaved (e ∷ events) y = interleaved events (happen e y)

  module _ ⦃http : HttpLib⦄ ⦃utf8 : Utf8Lib⦄ ⦃jwt : JwtLib⦄ ⦃serde : JsonLib⦄ where
    abbrev AnyPrivileged : HttpRequest → Inputs → List (App p) → Type 0
    AnyPrivileged req i [] = ⊥
    AnyPrivileged req i (s ∷ states) = IsPrivileged p req i s ⊎ AnyPrivileged req i states

    -- In a state that a statement of the task has met, its request was privileged.
    abbrev pub WasPrivileged : Task p → Type 0
    WasPrivileged t = AnyPrivileged t.request t.inputs t.met

    -- The event is a statement of a task that has been privileged.
    pub record IsByPrivileged (e : Event) (y : System p) : Type 0 where
      pub index : ℕ
      pub task : Task p
      pub advances : e ≡ advance index
      pub there : get_elem? y.tasks index ≡ some task
      pub privileged : WasPrivileged task

-- Before any request.
abbrev pub idle : (p : Platform) → App p → System p
idle p s = record { app = s; tasks = [] }
