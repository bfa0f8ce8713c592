-- ===== src/Database/Pool/Opened.antt =====
-- What opening the database comes to.
use multithreaded.Base.{
  ℕ, ◌≡◌, refl, sym, ◌∙◌, ap, Bool, true, false, not, some, Bool-cases, inl, inr, subst, ◌⊎◌, ◌≢◌,
  arith,
}
use multithreaded.Base.Text.{Str, bytes, str_eq, str_eq-eq, str_eq_iff}
use multithreaded.Base.Results.{Result, ok, err, >>=-eq-ok, Result-cases}
use multithreaded.Database.Pool.{
  Schema, or_new, create_missing, SqlLib, is_postgres, effective_pool_size, items_columns,
  users_columns, sessions_columns, DbError, sqlx, backend_mismatch, run_migrations, connected,
  opened, same_backend, init_pool,
}

-- The three tables are there, as they were before if they were; no other table has changed.
pub record IsMigrated (before after : Schema) : Type 0 where
  pub items : after (bytes "items") ≡ some (or_new (before (bytes "items")) items_columns)
  pub users : after (bytes "users") ≡ some (or_new (before (bytes "users")) users_columns)
  pub sessions :
      after (bytes "sessions") ≡ some (or_new (before (bytes "sessions")) sessions_columns)
  pub others :
      (name : Str)
      → str_eq (bytes "items") name ≡ false
      → str_eq (bytes "users") name ≡ false
      → str_eq (bytes "sessions") name ≡ false
      → after name ≡ before name

abbrev migrated : Schema → Schema
migrated s =
    create_missing (bytes "sessions") sessions_columns (
      create_missing (bytes "users") users_columns (create_missing (bytes "items") items_columns s))

migrated-IsMigrated : (s : Schema) → IsMigrated s (migrated s)
unfolding create_missing str_eq bytes
migrated-IsMigrated s = record {
  items = refl;
  users = refl;
  sessions = refl;
  others = λ name i u t. rw (t, u, i) refl;
}

same_backend-eq : (a b : Bool) → same_backend a b ≡ true → a ≡ b
unfolding same_backend
same_backend-eq true true h = refl
same_backend-eq true false h = sym h
same_backend-eq false true h = h
same_backend-eq false false h = refl

same_backend-not : (a b : Bool) → same_backend a b ≡ false → a ≡ not b
unfolding same_backend
same_backend-not true true h = h
same_backend-not true false h = refl
same_backend-not false true h = refl
same_backend-not false false h = sym h

module _ (lib : SqlLib) where
  run_migrations-ok :
      (fresh pool : lib.Pool)
      → run_migrations lib fresh ≡ ok pool
      → (lib.schema pool ≡ migrated (lib.schema fresh))
        × (lib.max_connections pool ≡ lib.max_connections fresh)
  unfolding run_migrations
  run_migrations-ok fresh pool h =
      let (one, a, h) = >>=-eq-ok (lib.create_table (bytes "items") items_columns fresh) _ pool h in
      let (two, b, c) = >>=-eq-ok (lib.create_table (bytes "users") users_columns one) _ pool h in
      (
        lib.create_table_schema _ _ two pool c
            ∙ ap (create_missing (bytes "sessions") sessions_columns) (
                lib.create_table_schema _ _ one two b
                ∙ ap (create_missing (bytes "users") users_columns)
                    (lib.create_table_schema _ _ fresh one a)),
        lib.create_table_size _ _ two pool c
            ∙ (lib.create_table_size _ _ one two b ∙ lib.create_table_size _ _ fresh one a),
      )

  -- How many connections the pool may have.
  pub data Sized (postgres : Bool) (db_url : Str) (pool_size n : ℕ) : Type 0 where
    single :
        postgres ≡ false
        → db_url ≡ bytes "sqlite::memory:"
        → n ≡ 1
        → Sized postgres db_url pool_size n
    configured :
        (postgres ≡ true) ⊎ (db_url ≢ bytes "sqlite::memory:")
        → n ≡ pool_size
        → Sized postgres db_url pool_size n

  effective_pool_size-Sized :
      (db_url : Str) (pool_size : ℕ)
      → Sized false db_url pool_size (effective_pool_size db_url pool_size)
  unfolding effective_pool_size
  effective_pool_size-Sized db_url pool_size =
      elim (Bool-cases (str_eq db_url (bytes "sqlite::memory:"))) [
        | inl e ↦ rw (e, effective_pool_size) (single refl (str_eq-eq db_url _ e) refl)
        | inr e ↦
            rw (e, effective_pool_size)
              (configured
                (inr (λ q.
                  absurd (ground (arith, e, (str_eq_iff db_url (bytes "sqlite::memory:")).1 q))))
                refl)
      ]

  -- A pool of the URL for at most `n` connections.
  pub data IsConnected (postgres : Bool) (db_url : Str) (n : ℕ) (fresh : lib.Pool) : Type 0 where
    by_url : postgres ≡ true → lib.connect n db_url ≡ ok fresh → IsConnected postgres db_url n fresh
    by_options :
        (options : lib.Options)
        → postgres ≡ false
        → lib.parse_options db_url ≡ ok options
        → lib.connect_with n options ≡ ok fresh
        → IsConnected postgres db_url n fresh

  connected-IsConnected :
      (postgres : Bool) (db_url : Str) (pool_size : ℕ) (fresh : lib.Pool)
      → connected lib postgres db_url pool_size ≡ ok fresh
      → (n : ℕ) × (Sized postgres db_url pool_size n
          × IsConnected postgres db_url n fresh
          × (lib.max_connections fresh ≡ n))
  unfolding connected
  connected-IsConnected true db_url pool_size fresh h = (
    pool_size,
    (configured (inl refl) refl, by_url refl h, lib.connect_size pool_size db_url fresh h),
  )
  connected-IsConnected false db_url pool_size fresh h =
      let (options, a, b) = >>=-eq-ok (lib.parse_options db_url) _ fresh h in
      (
        effective_pool_size db_url pool_size,
        (
          effective_pool_size-Sized db_url pool_size,
          by_options options refl a b,
          lib.connect_with_size _ options fresh b,
        ),
      )

  pub data Opens (postgres : Bool) (db_url : Str) (pool_size : ℕ)
      : Result (DbError lib) lib.Pool → Type 0 where
    mismatch :
        {r : Result (DbError lib) lib.Pool}
        → is_postgres db_url ≡ not postgres
        → r ≡ err backend_mismatch
        → Opens postgres db_url pool_size r
    failed :
        {r : Result (DbError lib) lib.Pool} (e : lib.SqlError)
        → is_postgres db_url ≡ postgres
        → opened lib postgres db_url pool_size ≡ err e
        → r ≡ err (sqlx e)
        → Opens postgres db_url pool_size r
    opens :
        {r : Result (DbError lib) lib.Pool} (n : ℕ) (fresh pool : lib.Pool)
        → is_postgres db_url ≡ postgres
        → Sized postgres db_url pool_size n
        → IsConnected postgres db_url n fresh
        → IsMigrated (lib.schema fresh) (lib.schema pool)
        → lib.max_connections pool ≡ n
        → r ≡ ok pool
        → Opens postgres db_url pool_size r

  -- A URL for the other backend is refused before anything is opened. Otherwise the pool is opened
  -- from the URL, for at most as many connections as are configured (for one, where the backend is
  -- sqlite and the URL is `sqlite::memory:`), and with the three tables: those it had are kept, the
  -- others created, and no other changes; or an error of a step is passed on.
  pub init_pool-Opens :
      (postgres : Bool) (db_url : Str) (pool_size : ℕ)
      → Opens postgres db_url pool_size (init_pool lib postgres db_url pool_size)
  unfolding init_pool opened
  init_pool-Opens postgres db_url pool_size =
      elim (Bool-cases (same_backend (is_postgres db_url) postgres)) [
        | inr s ↦ rw (s, init_pool) (mismatch (same_backend-not _ _ s) refl)
        | inl s ↦ elim (Result-cases (opened lib postgres db_url pool_size)) [
          | inr (e, o) ↦ rw (s, o, init_pool) (failed e (same_backend-eq _ _ s) o refl)
          | inl (pool, o) ↦
              let (fresh, c, m) = >>=-eq-ok (connected lib postgres db_url pool_size) _ pool o in
              let (schema, kept) = run_migrations-ok fresh pool m in
              let (n, (sized, connected, most)) =
                connected-IsConnected postgres db_url pool_size fresh c in
              rw (s, o, init_pool)
                (opens n fresh pool (same_backend-eq _ _ s) sized connected
                  (subst (IsMigrated (lib.schema fresh)) (sym schema) (migrated-IsMigrated _))
                  (kept ∙ most) refl)
        ]
      ]
