-- ===== src/Main/Printed.antt =====
-- The hash that the tool prints lets its password in.
use multithreaded.Base.{◌≡◌, refl, sym, ◌∙◌, ap, true, Option, none, some, ◌⊎◌, arith, Bool}
use multithreaded.Base.Results.{ok}
use multithreaded.Base.Text.{Str}
use multithreaded.Config.{ServerConfig}
use multithreaded.Database.Pool.{init_pool}
use multithreaded.Database.Users.{Argon2Lib, create_user_with_hash_if_missing, verify_user}
use multithreaded.Database.Users.Accounts.{hash_verifies}
use multithreaded.Main.{printed, hashed_argument, password_hash}
use multithreaded.Server.Application.{Platform}
use multithreaded.Server.Startup.{Machine, Conditions, Started, start, first_account}
use multithreaded.Server.Startup.Login.{start-IsStarted}

hashed_argument-printed :
    (o : Option Str) (hash : Str) → hashed_argument o ≡ printed hash → o ≡ some hash
unfolding hashed_argument
hashed_argument-printed none hash h = absurd (ground (arith, h))
hashed_argument-printed (some found) hash h = cc

password_hash-printed :
    (argon2 : Argon2Lib) (password hash : Str) (salt : argon2.Salt)
    → password_hash argon2 (some password) salt ≡ printed hash
    → argon2.hash_password password salt ≡ some hash
unfolding password_hash
password_hash-printed argon2 password hash salt h =
    hashed_argument-printed (argon2.hash_password password salt) hash h

module _ (p : Platform) (machine : Machine p) {Addr : Type 0} (cfg : ServerConfig Addr)
    (conditions : Conditions p machine) where
  -- The tool prints a hash of a password; with it in AUTH_PASSWORD_HASH the server starts over a
  -- database that has no account of the configured name: then that name with the password of the
  -- tool verifies, unless a statement fails, whatever AUTH_PASSWORD is.
  pub password_hash-verify_user :
      (password hash : Str) (salt : p.argon2.Salt) (ready : Bool) (s : Started p machine)
      → password_hash p.argon2 (some password) salt ≡ printed hash
      → conditions.password_hash ≡ some hash
      → start p machine cfg conditions ≡ (ready, ok s)
      → ((pool : machine.sql.Pool)
          → init_pool machine.sql machine.postgres cfg.db_url cfg.db_pool_size ≡ ok pool
          → p.users.rows (machine.stores pool).users cfg.auth_username ≡ none)
      → let verified = (verify_user p.argon2 p.users cfg.auth_username password s.state.users).0 in
        (verified ≡ none) ⊎ (verified ≡ some true)
  unfolding first_account
  password_hash-verify_user password hash salt ready s made set h fresh =
      let started = (start-IsStarted p machine cfg conditions ready s h).1 in
      let t = (machine.stores started.pool).users in
      let same : first_account p machine conditions.password_hash cfg.auth_username
            cfg.auth_password conditions.salt t
          ≡ create_user_with_hash_if_missing p.argon2 p.users cfg.auth_username hash t =
        rw (set, first_account) refl in
      rw started.accounts (
        rw same (
          hash_verifies p.argon2 p.users cfg.auth_username password hash salt t
            (fresh started.pool started.opened)
            (password_hash-printed p.argon2 password hash salt made)
            (ap (λ x. x.0) (sym same) ∙ started.created)))
