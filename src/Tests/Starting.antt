-- ===== src/Tests/Starting.antt =====
-- The start of src/server/mod.rs, with src/tls and src/db/pool.rs, at concrete inputs.
use multithreaded.Base.{
  ℕ, ◌^◌, ◌≡◌, ◌↔◌, ◌⊎◌, refl, sym, ap, true, false, none, some, List, [], ◌∷◌,
}
use multithreaded.Base.Text.{Str, bytes, str_eq, strip_prefix}
use multithreaded.Base.Results.{ok, err, collect, ok-injective}
use multithreaded.Config.{ServerConfig}
use multithreaded.Database.Pool.{
  Schema, create_missing, SqlLib, backend_mismatch, is_postgres, effective_pool_size, same_backend,
  init_pool, opened,
}
use multithreaded.Database.Pool.Opened.{Opens, init_pool-Opens}
use multithreaded.Database.Users.{verify_user, create_user_if_missing}
use multithreaded.Middleware.Semaphore.{counting}
use multithreaded.Server.Application.{Platform}
use multithreaded.Server.Startup.{
  Machine, Conditions, Started, db, panicked, start, bound, prepare, with_listener, with_tls,
  with_limits, with_account, tls_setup, first_account,
}
use multithreaded.Server.Startup.Login.{start-verify_user}
use multithreaded.Tests.Accounts as Accounts
use multithreaded.Tests.Administration as Administration
use multithreaded.Tests.Loading.{blank}
use multithreaded.Tests.Sessions as Sessions
use multithreaded.Tls.{TlsLib, TlsAcceptor, load_tls_acceptor}
use multithreaded.Tls.Loaded.{IsLoaded, load_tls_acceptor_iff}

-- Every file opens, and holds one certificate and a key.
abbrev files : TlsLib
files = record {
  File = Str;
  IoError = Unit {0};
  RustlsError = Unit {0};
  Certificate = Str;
  PrivateKey = Str;
  ServerConfig = List Str × Str;
  open_file = λ path. ok path;
  certs = λ file. ok file ∷ [];
  private_key = λ file. ok (some file);
  protocol_versions = ok tt;
  with_single_cert = λ certs key. ok (certs, key);
}

abbrev acceptor : TlsAcceptor files
acceptor = record {
  config = (bytes "c" ∷ [], bytes "k");
  alpn_protocols = bytes "h2" ∷ bytes "http/1.1" ∷ [];
}

load_tls_acceptor_iff_example :
    (load_tls_acceptor files (bytes "c") (bytes "k") ≡ ok acceptor)
    ↔ IsLoaded files (bytes "c") (bytes "k") acceptor
load_tls_acceptor_iff_example = load_tls_acceptor_iff files (bytes "c") (bytes "k") acceptor

-- A new database in memory, with its size.
abbrev memory : SqlLib
memory = record {
  SqlError = Unit {0};
  Options = Unit {0};
  Pool = Schema × ℕ;
  parse_options = λ url. ok tt;
  connect_with = λ n options. ok ((λ name. none), n);
  connect = λ n url. ok ((λ name. none), n);
  create_table = λ table columns pool. ok (create_missing table columns pool.0, pool.1);
  schema = λ pool. pool.0;
  max_connections = λ pool. pool.1;
  connect_with_size = λ n options pool h. ap (λ x. x.1) (sym (ok-injective h));
  connect_size = λ n url pool h. ap (λ x. x.1) (sym (ok-injective h));
  create_table_schema = λ table columns pool pool' h. ap (λ x. x.0) (sym (ok-injective h));
  create_table_size = λ table columns pool pool' h. ap (λ x. x.1) (sym (ok-injective h));
}

init_pool-Opens_example :
    Opens memory false
      (bytes "sqlite::memory:")
      5
      (init_pool memory false (bytes "sqlite::memory:") 5)
init_pool-Opens_example = init_pool-Opens memory false (bytes "sqlite::memory:") 5

abbrev pub platform : Platform
platform = record {
  sessions = Sessions.memory;
  users = Accounts.memory;
  items = Administration.memory;
  argon2 = Accounts.plain;
}

abbrev pub machine : Machine platform
machine = record {
  semaphores = counting;
  tls = files;
  sql = memory;
  postgres = false;
  builds_client = λ secs. true;
  stores = λ pool. record {
    sessions = Sessions.empty;
    users = Accounts.no_users;
    items = Administration.stocked;
  };
}

abbrev pub config : ServerConfig Str
config = record blank {
  db_url = bytes "sqlite::memory:";
  auth_username = bytes "admin";
  auth_password = bytes "secret";
  tls_cert_path = some (bytes "c");
  tls_key_path = some (bytes "k");
  http_redirect_port = some 80;
}

abbrev pub conditions : Conditions platform machine
conditions = record {
  listener = ok tt;
  local_addr = ok tt;
  password_hash = none;
  salt = tt;
  templates = true;
}

abbrev pub started : Started platform machine
started = record {
  tls_acceptor = some acceptor;
  connection_limit = 0;
  concurrency_limiter = 0;
  rate_limiter = 0;
  state = record {
    sessions = Sessions.empty;
    users =
        (create_user_if_missing Accounts.plain Accounts.memory (bytes "admin") (bytes "secret") tt
          Accounts.no_users).1;
    items = Administration.stocked;
  };
  has_templates = true;
  has_client = false;
  redirect = some 80;
}

starts : start platform machine config conditions ≡ (true, ok started)
unfolding start bound prepare with_listener with_tls with_limits counting with_account tls_setup
    load_tls_acceptor first_account init_pool opened is_postgres strip_prefix str_eq bytes
    effective_pool_size same_backend collect create_user_if_missing
starts = refl

start-verify_user_example :
    let verified =
      (verify_user Accounts.plain Accounts.memory
        (bytes "admin")
        (bytes "secret")
        started.state.users).0 in
    (verified ≡ none) ⊎ (verified ≡ some true)
start-verify_user_example =
    start-verify_user platform machine config conditions true started starts refl (λ pool h. refl)

-- The announcement of the listener is reached before the database is refused.
announced_too_early :
    start platform machine (record config { db_url = bytes "postgres://db" }) conditions
    ≡ (true, err (db backend_mismatch))
unfolding start bound prepare with_listener with_tls with_limits counting tls_setup
    load_tls_acceptor init_pool is_postgres strip_prefix bytes same_backend collect
announced_too_early = refl

-- A limit that the configuration accepts and a semaphore does not.
too_many :
    start platform machine (record config { max_connections = 2 ^ 61 }) conditions
    ≡ (true, err panicked)
unfolding start bound prepare with_listener with_tls with_limits counting tls_setup
    load_tls_acceptor collect
too_many = refl
