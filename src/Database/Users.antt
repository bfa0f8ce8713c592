-- ===== src/Database/Users.antt =====
-- src/db/models.rs: the accounts in the table `users`.
pub mod Accounts
use multithreaded.Base.{◌≡◌, Bool, true, false, Option, none, some, if◌then◌else◌}
use multithreaded.Base.Text.{Str, str_eq}

-- A row without its key `username`: `password_hash`.
abbrev pub Rows : Type 0
Rows = Str → Option Str

abbrev pub put : Str → Str → Rows → Rows
put username password_hash rows =
    λ key. if str_eq username key then some password_hash else rows key

-- The statements, executed by the database: each may fail, and then changes no row.
pub record UsersTable : Type 1 where
  pub Table : Type 0
  pub rows : Table → Rows
  -- SELECT username FROM users WHERE username = $1, or password_hash in place of username: the
  -- first reads only whether there is a row.
  pub select : Str → Table → Option (Option Str) × Table
  -- INSERT INTO users (username, password_hash) VALUES ($1, $2)
  pub insert : Str → Str → Table → Bool × Table
  pub select_ok :
      (username : Str) (t : Table) (o : Option Str)
      → (select username t).0 ≡ some o
      → o ≡ rows t username
  pub select_rows : (username : Str) (t : Table) → rows (select username t).1 ≡ rows t
  pub insert_ok :
      (username password_hash : Str) (t : Table)
      → (insert username password_hash t).0 ≡ true
      → rows (insert username password_hash t).1 ≡ put username password_hash (rows t)
  pub insert_error :
      (username password_hash : Str) (t : Table)
      → (insert username password_hash t).0 ≡ false
      → rows (insert username password_hash t).1 ≡ rows t

-- The crate argon2: what it makes of a password parses and verifies that password.
pub record Argon2Lib : Type 1 where
  pub Salt : Type 0
  pub hash_password : Str → Salt → Option Str
  pub parses : Str → Bool
  pub verify_password : Str → Str → Bool
  pub hash_parses :
      (password : Str) (salt : Salt) (hash : Str)
      → hash_password password salt ≡ some hash
      → parses hash ≡ true
  pub hash_verifies :
      (password : Str) (salt : Salt) (hash : Str)
      → hash_password password salt ≡ some hash
      → verify_password password hash ≡ true

module _ (argon2 : Argon2Lib) (db : UsersTable) where
  open argon2 use {Salt, hash_password, parses, verify_password}
  open db use {Table, select, insert}

  -- After the `SELECT`; `false` is an error.
  unfoldable pub insert_missing : Str → Str → Option (Option Str) → Table → Bool × Table
  insert_missing username password_hash none t = (false, t)
  insert_missing username password_hash (some (some _)) t = (true, t)
  insert_missing username password_hash (some none) t = insert username password_hash t

  unfoldable pub create_user_with_hash_if_missing : Str → Str → Table → Bool × Table
  unfolding insert_missing
  create_user_with_hash_if_missing username password_hash t =
      let (exists, t') = select username t in
      let (ok, t'') = insert_missing username password_hash exists t' in
      if parses password_hash then (ok, t'') else (false, t)

  unfoldable pub create_user_if_missing : Str → Str → Salt → Table → Bool × Table
  unfolding create_user_with_hash_if_missing
  create_user_if_missing username bootstrap_password salt t =
      elim (hash_password bootstrap_password salt) [
        | none ↦ (false, t)
        | some hash ↦ create_user_with_hash_if_missing username hash t
      ]

  unfoldable pub verify_stored : Str → Option (Option Str) → Option Bool
  verify_stored password none = none
  verify_stored password (some none) = some false
  verify_stored password (some (some hash)) =
      some (if parses hash then verify_password password hash else false)

  -- `none` is an error.
  unfoldable pub verify_user : Str → Str → Table → Option Bool × Table
  unfolding verify_stored
  verify_user username password t =
      let (stored, t') = select username t in (verify_stored password stored, t')
