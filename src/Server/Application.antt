-- ===== src/Server/Application.antt =====
-- src/server/connection.rs: `AppState`, and what a handler is given and gives.
use multithreaded.Base.{ℕ}
use multithreaded.Base.Text.{Str}
use multithreaded.Database.Items.{ItemsTable}
use multithreaded.Database.Users.{UsersTable, Argon2Lib}
use multithreaded.Http.Request.{HttpRequest}
use multithreaded.Http.Response.{HttpResponse}
use multithreaded.Metrics.{Metrics}
use multithreaded.Server.Task.{Joined}
use multithreaded.Session.{SessionsTable}
use multithreaded.StaticFiles.{FileSystem}

-- The database, by its three tables, and the crate argon2.
pub record Platform : Type 1 where
  pub sessions : SessionsTable
  pub users : UsersTable
  pub items : ItemsTable
  pub argon2 : Argon2Lib

-- What a request meets outside: the clock in seconds, new UUIDs, how a closure ends on the blocking
-- pool, and the file system.
pub record Inputs : Type 0 where
  pub now : ℕ
  pub uuid : Str
  pub second_uuid : Str
  pub blocking : Joined {0} Unit
  pub files : FileSystem

module _ (p : Platform) where
  -- The state that handlers share.
  pub record App : Type 0 where
    pub sessions : p.sessions.Table
    pub users : p.users.Table
    pub items : p.items.Table

  -- A handler's future, run to its end.
  abbrev pub Answer : Type 0
  Answer = Inputs → Metrics → App → HttpResponse × App

  abbrev pub Handler : Type 0
  Handler = HttpRequest → Answer
