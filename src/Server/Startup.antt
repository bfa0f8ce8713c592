-- ===== src/Server/Startup.antt =====
-- src/server/mod.rs: `Server::run` up to the accept loop.
pub mod Login
use multithreaded.Base.{
  leb, ◌&&◌, ℕ, Bool, not, true, false, Option, none, some, is_some, if◌then◌else◌,
}
use multithreaded.Base.Text.{Str}
use multithreaded.Base.Results.{Result, ok, err, ◌>>=◌, map_err}
use multithreaded.Config.{ServerConfig}
use multithreaded.Database.Pool.{SqlLib, DbError, init_pool}
use multithreaded.Database.Users.{
  UsersTable, Argon2Lib, create_user_if_missing, create_user_with_hash_if_missing,
}
use multithreaded.Middleware.Semaphore.{SemaphoreLib}
use multithreaded.Server.Application.{Platform, App}
use multithreaded.Tls.{TlsLib, TlsError, TlsAcceptor, load_tls_acceptor}

-- The libraries: tokio's semaphores, rustls with the files, sqlx with or without the feature
-- `postgres`, the tables of a pool, and whether reqwest builds a client with a timeout in seconds.
pub record Machine (p : Platform) : Type 1 where
  pub semaphores : SemaphoreLib
  pub tls : TlsLib
  pub sql : SqlLib
  pub postgres : Bool
  pub stores : sql.Pool → App p
  pub builds_client : ℕ → Bool

module _ (p : Platform) (machine : Machine p) where
  -- `bootstrap` is the database error of the first account; `panicked`, which no caller can handle,
  -- stands for a panic.
  pub data ServerError : Type 0 where
    bind io : machine.tls.IoError → ServerError
    tls_error : TlsError machine.tls → ServerError
    db : DbError machine.sql → ServerError
    bootstrap panicked : ServerError

  -- What the start meets: the listener, the variable AUTH_PASSWORD_HASH, a salt, and whether the
  -- templates load.
  pub record Conditions : Type 0 where
    pub listener : Result machine.tls.IoError (Unit {0})
    pub local_addr : Result machine.tls.IoError (Unit {0})
    pub password_hash : Option Str
    pub salt : p.argon2.Salt
    pub templates : Bool

  -- What the accept loop starts with. The two semaphores are given by their permits, and
  -- the rate limiter by its rate.
  pub record Started : Type 0 where
    pub tls_acceptor : Option (TlsAcceptor machine.tls)
    pub connection_limit : ℕ
    pub concurrency_limiter : ℕ
    pub rate_limiter : ℕ
    pub state : App p
    pub has_templates : Bool
    pub has_client : Bool
    pub redirect : Option ℕ

  unfoldable pub tls_setup :
      Option Str → Option Str → Result (TlsError machine.tls) (Option (TlsAcceptor machine.tls))
  tls_setup (some cert) (some key) = do
    acceptor ← load_tls_acceptor machine.tls cert key
    ok (some acceptor)
  tls_setup (some cert) none = ok none
  tls_setup none key = ok none

  -- The account of the configuration, from a hash if there is one.
  unfoldable pub first_account :
      Option Str → Str → Str → p.argon2.Salt → p.users.Table → Bool × p.users.Table
  first_account (some hash) username password salt t =
      create_user_with_hash_if_missing p.argon2 p.users username hash t
  first_account none username password salt t =
      create_user_if_missing p.argon2 p.users username password salt t

  module _ {Addr : Type 0} (cfg : ServerConfig Addr) (conditions : Conditions) where
    -- From the account on. The client of the proxy is expected to be built.
    unfoldable pub with_account :
        Option (TlsAcceptor machine.tls) → App p → Bool × p.users.Table → Result ServerError Started
    with_account acceptor app (false, t) = err bootstrap
    with_account acceptor app (true, t) =
        if is_some cfg.proxy_upstream && not (machine.builds_client cfg.request_timeout_secs)
        then err panicked
        else ok (record {
          tls_acceptor = acceptor;
          connection_limit = cfg.max_connections;
          concurrency_limiter = cfg.max_concurrent_requests;
          rate_limiter = cfg.rate_limit_rps;
          state = record app { users = t };
          has_templates = conditions.templates;
          has_client = is_some cfg.proxy_upstream;
          redirect = if is_some acceptor then cfg.http_redirect_port else none;
        })

    -- From the database on.
    unfoldable pub with_limits : Option (TlsAcceptor machine.tls) → Result ServerError Started
    unfolding with_account first_account
    with_limits acceptor = do
      pool ← map_err db (init_pool machine.sql machine.postgres cfg.db_url cfg.db_pool_size)
      let app = machine.stores pool
      with_account acceptor app (
          first_account conditions.password_hash cfg.auth_username cfg.auth_password conditions.salt
            app.users)

    -- From the semaphores on.
    unfoldable pub with_tls : Option (TlsAcceptor machine.tls) → Result ServerError Started
    unfolding with_limits
    with_tls acceptor =
        let rest = with_limits acceptor in
        if leb cfg.max_connections machine.semaphores.max_permits
          && leb cfg.max_concurrent_requests machine.semaphores.max_permits
        then rest
        else err panicked

    -- Whether the point is reached at which a `ready_tx` is sent, and what the start comes to.
    unfoldable pub with_listener :
        Result (TlsError machine.tls) (Option (TlsAcceptor machine.tls))
        → Bool × Result ServerError Started
    unfolding with_tls
    with_listener (err e) = (false, err (tls_error e))
    with_listener (ok acceptor) = (true, with_tls acceptor)

    -- `accept_loop`, up to the loop.
    unfoldable pub prepare :
        Result machine.tls.IoError (Unit {0}) → Bool × Result ServerError Started
    unfolding with_listener tls_setup
    prepare (err e) = (false, err (io e))
    prepare (ok addr) = with_listener (tls_setup cfg.tls_cert_path cfg.tls_key_path)

    unfoldable pub bound : Result machine.tls.IoError (Unit {0}) → Bool × Result ServerError Started
    unfolding prepare
    bound (err e) = (false, err (bind e))
    bound (ok listener) = prepare conditions.local_addr

    -- `run`
    unfoldable pub start : Bool × Result ServerError Started
    unfolding bound
    start = bound conditions.listener
