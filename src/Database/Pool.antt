-- ===== src/Database/Pool.antt =====
-- src/db/pool.rs. sqlx is an argument.
pub mod Opened
use multithreaded.Base.{
  ℕ, Bool, true, false, ◌||◌, Option, none, some, List, [], ◌∷◌, if◌then◌else◌, ◌≡◌, is_some,
}
use multithreaded.Base.Text.{Str, bytes, str_eq, strip_prefix}
use multithreaded.Base.Results.{Result, ok, err, ◌>>=◌, map_err}

-- The columns of a table with their types, and the tables of a database by name.
abbrev pub Columns : Type 0
Columns = List (Str × Str)

abbrev pub Schema : Type 0
Schema = Str → Option Columns

-- `CREATE TABLE IF NOT EXISTS`.
abbrev pub or_new : Option Columns → Columns → Columns
or_new none columns = columns
or_new (some old) columns = old

unfoldable pub create_missing : Str → Columns → Schema → Schema
create_missing table columns schema =
    λ name. if str_eq table name then some (or_new (schema name) columns) else schema name

-- Opening a pool of either backend, and executing a `CREATE TABLE IF NOT EXISTS`; what can be asked
-- of a pool.
pub record SqlLib : Type 1 where
  pub SqlError : Type 0
  pub Options : Type 0
  pub Pool : Type 0
  pub parse_options : Str → Result SqlError Options
  pub connect_with : ℕ → Options → Result SqlError Pool
  pub connect : ℕ → Str → Result SqlError Pool
  pub create_table : Str → Columns → Pool → Result SqlError Pool
  pub schema : Pool → Schema
  pub max_connections : Pool → ℕ
  pub connect_with_size :
      (n : ℕ) (options : Options) (pool : Pool)
      → connect_with n options ≡ ok pool
      → max_connections pool ≡ n
  pub connect_size :
      (n : ℕ) (url : Str) (pool : Pool) → connect n url ≡ ok pool → max_connections pool ≡ n
  pub create_table_schema :
      (table : Str) (columns : Columns) (pool pool' : Pool)
      → create_table table columns pool ≡ ok pool'
      → schema pool' ≡ create_missing table columns (schema pool)
  pub create_table_size :
      (table : Str) (columns : Columns) (pool pool' : Pool)
      → create_table table columns pool ≡ ok pool'
      → max_connections pool' ≡ max_connections pool

unfoldable pub is_postgres : Str → Bool
is_postgres db_url =
    is_some (strip_prefix (bytes "postgres://") db_url)
    || is_some (strip_prefix (bytes "postgresql://") db_url)

unfoldable pub effective_pool_size : Str → ℕ → ℕ
effective_pool_size db_url pool_size =
    if str_eq db_url (bytes "sqlite::memory:") then 1 else pool_size

abbrev pub items_columns : Columns
items_columns =
    (bytes "id", bytes "TEXT PRIMARY KEY")
    ∷ (bytes "name", bytes "TEXT NOT NULL")
    ∷ (bytes "description", bytes "TEXT NOT NULL")
    ∷ (bytes "created_at", bytes "TIMESTAMP NOT NULL DEFAULT CURRENT_TIMESTAMP")
    ∷ []

abbrev pub users_columns : Columns
users_columns =
    (bytes "username", bytes "TEXT PRIMARY KEY")
    ∷ (bytes "password_hash", bytes "TEXT NOT NULL")
    ∷ (bytes "created_at", bytes "TIMESTAMP NOT NULL DEFAULT CURRENT_TIMESTAMP")
    ∷ []

abbrev pub sessions_columns : Columns
sessions_columns =
    (bytes "token", bytes "TEXT PRIMARY KEY")
    ∷ (bytes "username", bytes "TEXT NOT NULL")
    ∷ (bytes "csrf_token", bytes "TEXT NOT NULL")
    ∷ (bytes "expires_at", bytes "BIGINT NOT NULL")
    ∷ []

unfoldable pub same_backend : Bool → Bool → Bool
same_backend true b = b
same_backend false true = false
same_backend false false = true

module _ (lib : SqlLib) where
  open lib use {SqlError, Pool}

  pub data DbError : Type 0 where
    sqlx : SqlError → DbError
    backend_mismatch : DbError

  unfoldable pub run_migrations : Pool → Result SqlError Pool
  run_migrations pool = do
    pool ← lib.create_table (bytes "items") items_columns pool
    pool ← lib.create_table (bytes "users") users_columns pool
    lib.create_table (bytes "sessions") sessions_columns pool

  -- With the feature `postgres`, and without it.
  unfoldable pub connected : Bool → Str → ℕ → Result SqlError Pool
  connected true db_url pool_size = lib.connect pool_size db_url
  connected false db_url pool_size = do
    options ← lib.parse_options db_url
    lib.connect_with (effective_pool_size db_url pool_size) options

  unfoldable pub opened : Bool → Str → ℕ → Result SqlError Pool
  unfolding connected run_migrations
  opened postgres db_url pool_size = do
    pool ← connected postgres db_url pool_size
    run_migrations pool

  unfoldable pub init_pool : Bool → Str → ℕ → Result DbError Pool
  unfolding opened same_backend
  init_pool postgres db_url pool_size =
      if same_backend (is_postgres db_url) postgres
      then map_err sqlx (opened postgres db_url pool_size)
      else err backend_mismatch
