-- ===== src/Server/Startup/Login.antt =====
-- What a start that succeeds has done, and the first login after it.
use multithreaded.Base.{
  leb, ◌≤◌, Bool-cases, not, ◌&&◌, ◌&&◌, Option-cases, inl, inr, arith, ◌≡◌, refl, sym, ◌∙◌, ap,
  Bool, true, false, Option, none, some, is_some, ◌⊎◌, if◌then◌else◌,
}
use multithreaded.Base.Text.{Str}
use multithreaded.Base.Results.{Result, ok, err, map_err, >>=-eq-ok, ok-injective, map_err-ok}
use multithreaded.Config.{ServerConfig}
use multithreaded.Database.Pool.{init_pool}
use multithreaded.Database.Users.{
  create_user_with_hash_if_missing, create_user_if_missing, verify_user,
}
use multithreaded.Database.Users.Accounts.{ensure, create_user-rows, bootstrap_verifies}
use multithreaded.Server.Application.{Platform, App}
use multithreaded.Server.Startup.{
  Machine, Conditions, Started, db, tls_setup, first_account, with_account, with_limits, with_tls,
  with_listener, prepare, bound, start,
}
use multithreaded.Tls.{load_tls_acceptor, TlsError, TlsAcceptor}

module _ (p : Platform) (machine : Machine p) {Addr : Type 0} (cfg : ServerConfig Addr)
    (conditions : Conditions p machine) where
  abbrev account : p.users.Table → Bool × p.users.Table
  account t =
      first_account p machine conditions.password_hash cfg.auth_username cfg.auth_password
        conditions.salt t

  -- What the start has done.
  pub record IsStarted (s : Started p machine) : Type 0 where
    pub few_connections : cfg.max_connections ≤ machine.semaphores.max_permits
    pub few_requests : cfg.max_concurrent_requests ≤ machine.semaphores.max_permits
    pub connections : s.connection_limit ≡ cfg.max_connections
    pub requests : s.concurrency_limiter ≡ cfg.max_concurrent_requests
    pub pool : machine.sql.Pool
    pub opened : init_pool machine.sql machine.postgres cfg.db_url cfg.db_pool_size ≡ ok pool
    pub secured : tls_setup p machine cfg.tls_cert_path cfg.tls_key_path ≡ ok s.tls_acceptor
    pub tls_on : is_some s.tls_acceptor ≡ (is_some cfg.tls_cert_path && is_some cfg.tls_key_path)
    pub redirects : s.redirect ≡ (if is_some s.tls_acceptor then cfg.http_redirect_port else none)
    pub created : (account (machine.stores pool).users).0 ≡ true
    pub accounts :
        s.state ≡ record (machine.stores pool) { users = (account (machine.stores pool).users).1 }
    pub hash : Str
    pub hashed :
        (conditions.password_hash ≡ some hash)
        ⊎ ((conditions.password_hash ≡ none)
            × (p.argon2.hash_password cfg.auth_password conditions.salt ≡ some hash))
    pub ensured :
        p.users.rows s.state.users
        ≡ ensure cfg.auth_username hash (p.users.rows (machine.stores pool).users)

  tls_setup-is_some :
      (cert key : Option Str) (acceptor : Option (TlsAcceptor machine.tls))
      → tls_setup p machine cert key ≡ ok acceptor
      → is_some acceptor ≡ (is_some cert && is_some key)
  unfolding tls_setup
  tls_setup-is_some (some cert) (some key) acceptor h =
      let (loaded, e, k) = >>=-eq-ok (load_tls_acceptor machine.tls cert key) _ acceptor h in
      ap is_some (sym (ok-injective k))
  tls_setup-is_some (some cert) none acceptor h = ap is_some (sym (ok-injective h))
  tls_setup-is_some none key acceptor h = ap is_some (sym (ok-injective h))

  -- The account that is made has a hash, and the rows are the old ones with it, if it is new.
  HasAccount : p.users.Table → Type 0
  HasAccount t =
      (hash : Str) × ((conditions.password_hash ≡ some hash)
        ⊎ ((conditions.password_hash ≡ none)
            × (p.argon2.hash_password cfg.auth_password conditions.salt ≡ some hash)))
      × (p.users.rows (account t).1 ≡ ensure cfg.auth_username hash (p.users.rows t))

  with_hash-rows :
      (hash : Str) (t : p.users.Table)
      → (create_user_with_hash_if_missing p.argon2 p.users cfg.auth_username hash t).0 ≡ true
      → p.users.rows (create_user_with_hash_if_missing p.argon2 p.users cfg.auth_username hash t).1
        ≡ ensure cfg.auth_username hash (p.users.rows t)
  with_hash-rows hash t made =
      create_user-rows p.argon2 p.users cfg.auth_username hash t ∙ (rw made refl)

  account-HasAccount : (t : p.users.Table) → (account t).0 ≡ true → HasAccount t
  unfolding HasAccount first_account create_user_if_missing
  account-HasAccount t made = elim (Option-cases conditions.password_hash) [
    | inr (hash, e) ↦
        (hash, inl e, rw (e, first_account) (with_hash-rows hash t (rw (e, first_account) at made)))
    | inl e ↦ elim (Option-cases (p.argon2.hash_password cfg.auth_password conditions.salt)) [
      | inr (hash, q) ↦ (
        hash,
        inr (e, q),
        rw (e, first_account)
            (rw (q, create_user_if_missing)
              (with_hash-rows hash t
                (rw (q, create_user_if_missing) at (rw (e, first_account) at made)))),
      )
      | inl q ↦
          absurd (ground (arith, rw (q, create_user_if_missing) at (rw (e, first_account) at made)))
    ]
  ]

  with_account-ok :
      (acceptor : Option (TlsAcceptor machine.tls)) (app : App p) (made : Bool × p.users.Table)
      (s : Started p machine)
      → with_account p machine cfg conditions acceptor app made ≡ ok s
      → (made.0 ≡ true)
        × (s.state ≡ record app { users = made.1 })
        × (s.tls_acceptor ≡ acceptor)
        × (s.redirect ≡ (if is_some acceptor then cfg.http_redirect_port else none))
        × (s.connection_limit ≡ cfg.max_connections)
        × (s.concurrency_limiter ≡ cfg.max_concurrent_requests)
  unfolding with_account
  with_account-ok acceptor app (false, t) s h = cc
  with_account-ok acceptor app (true, t) s h =
      elim (Bool-cases
        (is_some cfg.proxy_upstream && not (machine.builds_client cfg.request_timeout_secs))) [
          | inl q ↦ absurd (ground (arith, rw q at h))
          | inr q ↦
              let e = ok-injective (rw q at h) in
              (
                refl,
                ap (λ (x : Started p machine). x.state) (sym e),
                ap (λ (x : Started p machine). x.tls_acceptor) (sym e),
                ap (λ (x : Started p machine). x.redirect) (sym e),
                ap (λ (x : Started p machine). x.connection_limit) (sym e),
                ap (λ (x : Started p machine). x.concurrency_limiter) (sym e),
              )
        ]

  with_limits-IsStarted :
      (acceptor : Option (TlsAcceptor machine.tls)) (s : Started p machine)
      → tls_setup p machine cfg.tls_cert_path cfg.tls_key_path ≡ ok acceptor
      → with_limits p machine cfg conditions acceptor ≡ ok s
      → cfg.max_connections ≤ machine.semaphores.max_permits
      → cfg.max_concurrent_requests ≤ machine.semaphores.max_permits
      → IsStarted s
  unfolding with_limits HasAccount
  with_limits-IsStarted acceptor s e h few few' =
      let (pool, o, h) =
        >>=-eq-ok (map_err db (init_pool machine.sql machine.postgres cfg.db_url cfg.db_pool_size))
          _ s h in
      let (created, state, same, redirect, connections, requests) =
        with_account-ok acceptor (machine.stores pool) _ s h in
      record {
        few_connections = few;
        few_requests = few';
        connections = connections;
        requests = requests;
        pool = pool;
        opened = map_err-ok _ _ _ o;
        secured = e ∙ ap ok (sym same);
        redirects =
            redirect ∙ ap (λ a. if is_some a then cfg.http_redirect_port else none) (sym same);
        tls_on = ap is_some same ∙ tls_setup-is_some _ _ acceptor e;
        created = created;
        accounts = state;
        hash = (account-HasAccount (machine.stores pool).users created).0;
        hashed = (account-HasAccount (machine.stores pool).users created).1;
        ensured =
            ap (λ (a : App p). p.users.rows a.users) state
            ∙ (account-HasAccount (machine.stores pool).users created).2;
      }

  with_tls-IsStarted :
      (acceptor : Option (TlsAcceptor machine.tls)) (s : Started p machine)
      → tls_setup p machine cfg.tls_cert_path cfg.tls_key_path ≡ ok acceptor
      → with_tls p machine cfg conditions acceptor ≡ ok s
      → IsStarted s
  unfolding with_tls
  with_tls-IsStarted acceptor s e h =
      elim (Bool-cases (leb cfg.max_connections machine.semaphores.max_permits)) [
        | inr q ↦ absurd (ground (arith, rw q at h))
        | inl q ↦
            elim (Bool-cases (leb cfg.max_concurrent_requests machine.semaphores.max_permits)) [
              | inr r ↦ absurd (ground (arith, rw r at (rw q at h)))
              | inl r ↦
                  with_limits-IsStarted acceptor s e (rw r at (rw q at h)) (ground (arith, q))
                    (ground (arith, r))
            ]
      ]

  with_listener-IsStarted :
      (r : Result (TlsError machine.tls) (Option (TlsAcceptor machine.tls))) (ready : Bool)
      (s : Started p machine)
      → tls_setup p machine cfg.tls_cert_path cfg.tls_key_path ≡ r
      → with_listener p machine cfg conditions r ≡ (ready, ok s)
      → (ready ≡ true) × IsStarted s
  unfolding with_listener
  with_listener-IsStarted (err x) ready s e h = cc
  with_listener-IsStarted (ok acceptor) ready s e h =
      (sym (ap (λ x. x.0) h), with_tls-IsStarted acceptor s e (ap (λ x. x.1) h))

  prepare-IsStarted :
      (r : Result machine.tls.IoError (Unit {0})) (ready : Bool) (s : Started p machine)
      → prepare p machine cfg conditions r ≡ (ready, ok s)
      → (ready ≡ true) × IsStarted s
  unfolding prepare
  prepare-IsStarted (err x) ready s h = cc
  prepare-IsStarted (ok addr) ready s h = with_listener-IsStarted _ ready s refl h

  bound-IsStarted :
      (r : Result machine.tls.IoError (Unit {0})) (ready : Bool) (s : Started p machine)
      → bound p machine cfg conditions r ≡ (ready, ok s)
      → (ready ≡ true) × IsStarted s
  unfolding bound
  bound-IsStarted (err x) ready s h = cc
  bound-IsStarted (ok listener) ready s h = prepare-IsStarted _ ready s h

  -- A start that succeeds has reached the announcement of its listener and opened the pool of the
  -- configured URL. TLS is on exactly if both paths are set, and then its acceptor was loaded; plain
  -- requests are redirected only if it is on, from the configured port. The state is that of the
  -- pool, but for the first account, which it has with the hash of the variable, or else with one of
  -- the configured password, if it had no account of that name.
  pub start-IsStarted :
      (ready : Bool) (s : Started p machine)
      → start p machine cfg conditions ≡ (ready, ok s)
      → (ready ≡ true) × IsStarted s
  unfolding start
  start-IsStarted ready s h = bound-IsStarted _ ready s h

  -- After a start that succeeds without AUTH_PASSWORD_HASH, over a database that has no account of
  -- the configured name, the configured name and password verify, unless a statement fails.
  pub start-verify_user :
      (ready : Bool) (s : Started p machine)
      → start p machine cfg conditions ≡ (ready, ok s)
      → conditions.password_hash ≡ none
      → ((pool : machine.sql.Pool)
          → init_pool machine.sql machine.postgres cfg.db_url cfg.db_pool_size ≡ ok pool
          → p.users.rows (machine.stores pool).users cfg.auth_username ≡ none)
      → let verified =
          (verify_user p.argon2 p.users cfg.auth_username cfg.auth_password s.state.users).0 in
        (verified ≡ none) ⊎ (verified ≡ some true)
  unfolding first_account
  start-verify_user ready s h n fresh =
      let started = (start-IsStarted ready s h).1 in
      let t = (machine.stores started.pool).users in
      let same : account t
          ≡ create_user_if_missing p.argon2 p.users cfg.auth_username cfg.auth_password
              conditions.salt t =
        rw (n, first_account) refl in
      rw started.accounts (
        rw same (
          bootstrap_verifies p.argon2 p.users cfg.auth_username cfg.auth_password conditions.salt t
            (fresh started.pool started.opened) (ap (λ x. x.0) (sym same) ∙ started.created)))
