-- ===== src/Tests/Programs.antt =====
-- src/main.rs and src/bin/password_hash.rs at concrete environments.
use multithreaded.Base.{Option, ◌≡◌, ◌⊎◌, ◌↔◌, refl, true, none, some, [], ◌∷◌, if◌then◌else◌}
use multithreaded.Base.Results.{ok, err}
use multithreaded.Base.Text.{bytes, str_eq, strip_prefix}
use multithreaded.Config.{Env, or_default}
use multithreaded.Database.Users.{verify_user}
use multithreaded.Main.{
  RuntimeLib, runtime, World, Outside, main, default_jwt_secret, default_password, password_hash,
  printed, MainError,
}
use multithreaded.Main.Warned.{is_logged, main-warnings}
use multithreaded.Main.Printed.{password_hash-verify_user}
use multithreaded.Server.Accept.{connection, task_ends}
use multithreaded.Server.Drain.{Outcome}
use multithreaded.Server.Notify.{flag}
use multithreaded.Server.Run.{Signal, interrupt, terminate, loop, wake, Course, Served}
use multithreaded.Server.Startup.{Conditions, Started, start}
use multithreaded.Templates.{TeraLib}
use multithreaded.Tests.Accounts as Accounts
use multithreaded.Tests.Loading.{host, environment, loaded, loads}
use multithreaded.Tests.Starting.{platform, machine, config, conditions, started}
use multithreaded.Base.{Bool, false}
use multithreaded.Base.Results.{Result, collect}
use multithreaded.Database.Users.{create_user_with_hash_if_missing}
use multithreaded.Database.Pool.{init_pool, opened, is_postgres, effective_pool_size, same_backend}
use multithreaded.Middleware.Semaphore.{counting}
use multithreaded.Server.Startup.{
  bound, prepare, with_listener, with_tls, with_limits, with_account, tls_setup, first_account,
}
use multithreaded.Tls.{load_tls_acceptor}

-- A runtime is always built.
abbrev runtimes : RuntimeLib
runtimes = record { BuildError = Unit {0}; build = λ w b. runtime }

-- Nothing is compiled.
abbrev tera : TeraLib
tera = record { Tera = Unit {0}; TeraError = Unit {0}; compile = λ pattern. err tt }

abbrev world : World platform
world = record { host = host; runtimes = runtimes; notifies = flag; tera = tera; machine = machine }

-- Two connections before SIGINT, one of which ends during the drain; SIGTERM has no handler.
abbrev course : Course Signal
course = record {
  meetings =
      loop (connection 7)
      ∷ wake terminate
      ∷ loop (connection 7)
      ∷ loop task_ends
      ∷ wake interrupt
      ∷ loop (connection 7)
      ∷ [];
  settling = 0;
  more = 0;
  ending = 1;
}

abbrev outside : Outside platform world
outside = record {
  env = environment;
  listener = ok tt;
  local_addr = ok tt;
  salt = tt;
  sigterm = false;
  course = course;
}

main-warnings_example :
    ((is_logged default_jwt_secret (main platform world outside).0 ≡ true) ↔ (
      or_default (environment (bytes "JWT_SECRET")) (bytes "change-me-in-production")
      ≡ bytes "change-me-in-production"))
    × ((is_logged default_password (main platform world outside).0 ≡ true) ↔ (
        (or_default (environment (bytes "AUTH_USERNAME")) (bytes "admin") ≡ bytes "admin")
        × (or_default (environment (bytes "AUTH_PASSWORD")) (bytes "secret") ≡ bytes "secret")
        × (environment (bytes "AUTH_PASSWORD_HASH") ≡ none)))
main-warnings_example = main-warnings platform world outside loaded loads

-- The password `x` instead of the configured one.
abbrev hashed : Conditions platform machine
hashed = record conditions { password_hash = some (bytes "x") }

hash_printed : password_hash Accounts.plain (some (bytes "x")) tt ≡ printed (bytes "x")
unfolding password_hash
hash_printed = refl

abbrev started_hashed : Started platform machine
started_hashed = record started {
  state = record (started.state) {
    users =
        (create_user_with_hash_if_missing Accounts.plain Accounts.memory (bytes "admin") (bytes "x")
          Accounts.no_users).1;
  };
}

starts_hashed : start platform machine config hashed ≡ (true, ok started_hashed)
unfolding start bound prepare with_listener with_tls with_limits counting tls_setup
    load_tls_acceptor with_account first_account init_pool opened is_postgres strip_prefix str_eq
    bytes effective_pool_size same_backend collect create_user_with_hash_if_missing
starts_hashed = refl

password_hash-verify_user_example :
    let verified =
      (verify_user Accounts.plain Accounts.memory
        (bytes "admin")
        (bytes "x")
        started_hashed.state.users).0 in
    (verified ≡ none) ⊎ (verified ≡ some true)
password_hash-verify_user_example =
    password_hash-verify_user platform machine config hashed (bytes "x") (bytes "x") tt true
      started_hashed hash_printed refl starts_hashed (λ pool h. refl)

-- The program with a database in memory: the tasks end in the drain.
abbrev in_memory : Env
in_memory name = if str_eq name (bytes "DATABASE_URL") then some (bytes "sqlite::memory:") else none

finished :
    Result (MainError platform world) (Option (Outcome × Served platform machine flag)) → Bool
finished (ok none) = false
finished (ok (some end)) = true
finished (err e) = false

abbrev in_memory_outside : Outside platform world
in_memory_outside = record outside { env = in_memory }
