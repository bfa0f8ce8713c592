-- ===== src/Main.antt =====
-- src/main.rs, from the environment to the end of the server, and src/bin/password_hash.rs.
pub mod Runs
pub mod Warned
pub mod Printed
use multithreaded.Base.{
  ℕ, ◌≡◌, ◌⊎◌, Bool, true, false, not, ◌&&◌, is_some, Option, none, some, List, [], ◌∷◌, ◌++◌,
  if◌then◌else◌,
}
use multithreaded.Base.Results.{Result, ok, err, map_err}
use multithreaded.Base.Text.{Str, bytes, str_eq}
use multithreaded.Config as Config
use multithreaded.Config.{Host, ServerConfig, ConfigError, Env, from_env}
use multithreaded.Database.Users.{Argon2Lib}
use multithreaded.Server.Application.{Platform}
use multithreaded.Server.Drain.{Outcome}
use multithreaded.Server.Notify.{NotifyLib}
use multithreaded.Server.Run.{Signal, Course, Served, run}
use multithreaded.Server.Startup.{Machine, Conditions, ServerError}
use multithreaded.Templates.{TeraLib}
use multithreaded.Templates as Templates

pub data Warning : Type 0 where
  default_jwt_secret default_password : Warning

-- What the builder of the runtime comes to.
pub data Built (E : Type 0) : Type 0 where
  runtime : Built E
  build_error : E → Built E
  build_panicked : Built E

-- tokio: the builder of its runtime, with the numbers of worker threads and of blocking threads.
pub record RuntimeLib : Type 1 where
  pub BuildError : Type 0
  pub build : ℕ → ℕ → Built BuildError

-- The two checks for insecure defaults.
unfoldable pub warnings : {Addr : Type 0} → Env → ServerConfig Addr → List Warning
warnings env config =
    (if str_eq config.jwt_secret (bytes "change-me-in-production")
      then default_jwt_secret ∷ []
      else [])
    ++ (if str_eq config.auth_username (bytes "admin")
          && (str_eq config.auth_password (bytes "secret")
              && not (is_some (env (bytes "AUTH_PASSWORD_HASH"))))
        then default_password ∷ []
        else [])

-- The program over its libraries; what it meets are the sockets, a salt, whether SIGTERM gets its
-- handler, and the course of events. `ok none` is a server that still runs.
pub record World (p : Platform) : Type 1 where
  pub host : Host
  pub runtimes : RuntimeLib
  pub notifies : NotifyLib
  pub tera : TeraLib
  pub machine : Machine p

module _ (p : Platform) (world : World p) where
  open world use {host, runtimes, notifies, tera, machine}

  -- `build_panic` stands for a panic.
  pub data MainError : Type 0 where
    config : ConfigError → MainError
    build : runtimes.BuildError → MainError
    build_panic : MainError
    server : ServerError p machine → MainError

  pub record Outside : Type 0 where
    pub env : Env
    pub listener : Result machine.tls.IoError (Unit {0})
    pub local_addr : Result machine.tls.IoError (Unit {0})
    pub salt : p.argon2.Salt
    pub sigterm : Bool
    pub course : Course Signal

  module _ (outside : Outside) where
    -- What the start meets.
    abbrev pub conditions : Conditions p machine
    conditions = record {
      listener = outside.listener;
      local_addr = outside.local_addr;
      password_hash = outside.env (bytes "AUTH_PASSWORD_HASH");
      salt = outside.salt;
      templates = is_some (Templates.new tera (bytes "templates"));
    }

    -- `runtime.block_on`
    unfoldable pub block_on :
        ServerConfig host.Addr
        → Built runtimes.BuildError
        → Result MainError (Option (Outcome × Served p machine notifies))
    block_on c runtime =
        map_err server (run p machine notifies c outside.sigterm outside.course conditions)
    block_on c (build_error e) = err (build e)
    block_on c build_panicked = err build_panic

    unfoldable pub configured :
        Config.Result (ServerConfig host.Addr)
        → List Warning × Result MainError (Option (Outcome × Served p machine notifies))
    unfolding warnings block_on
    configured (Config.err e) = ([], err (config e))
    configured (Config.ok c) =
        (warnings outside.env c, block_on c (runtimes.build c.workers c.max_blocking_threads))

    unfoldable pub main :
        List Warning × Result MainError (Option (Outcome × Served p machine notifies))
    unfolding configured
    main = configured (from_env host outside.env)

-- How the tool that hashes a password ends: status 2 without an argument.
pub data ToolEnd : Type 0 where
  usage : ToolEnd
  printed : Str → ToolEnd
  hashing_panicked : ToolEnd

unfoldable pub hashed_argument : Option Str → ToolEnd
hashed_argument none = hashing_panicked
hashed_argument (some hash) = printed hash

unfoldable pub password_hash : (argon2 : Argon2Lib) → Option Str → argon2.Salt → ToolEnd
unfolding hashed_argument
password_hash argon2 none salt = usage
password_hash argon2 (some password) salt = hashed_argument (argon2.hash_password password salt)
