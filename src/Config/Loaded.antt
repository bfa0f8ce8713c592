-- ===== src/Config/Loaded.antt =====
-- What a loaded configuration guarantees to the rest of the server.
use multithreaded.Base.{
  ℕ, ◌≤◌, ◌<◌, ◌≡◌, refl, subst, Option, none, some, arith, Option-cases, inl, inr, ◌==◌,
  Bool-cases,
}
use multithreaded.Base.Text.{Str, bytes}
use multithreaded.Base.Decimal.{parse, parse-le}
use multithreaded.Config.{
  Host, ServerConfig, ConfigError, Result, ok, err, ◌>>=◌, Env, number, positive, max_u16, max_u32,
  max_u64, workers_from, redirect_port_from, from_env, or_default,
}

-- A result that, if it is a value, has the property.
pub data Ensures {A : Type 0} (P : A → Type 0) : Result A → Type 0 where
  value : {a : A} → P a → Ensures P (ok a)
  failed : {e : ConfigError} → Ensures P (err e)

Ensures-bind :
    {A B : Type 0} (Q : A → Type 0) {P : B → Type 0} {m : Result A} {f : A → Result B}
    → Ensures Q m
    → ((a : A) → Q a → Ensures P (f a))
    → Ensures P (m >>= f)
unfolding ◌>>=◌
Ensures-bind Q (value q) k = k _ q
Ensures-bind Q failed k = failed

abbrev Holds : {A : Type 0} → (A → Type 0) → Result A → Type 0
Holds P (ok a) = P a
Holds P (err e) = Unit

pub Ensures-eq : {A : Type 0} (P : A → Type 0) {r : Result A} (a : A) → Ensures P r → r ≡ ok a → P a
Ensures-eq P a (value p) e = subst (Holds P) e p
Ensures-eq P a failed e = cc

abbrev pub InRange : ℕ → ℕ → Type 0
InRange max n = (0 < n) × (n ≤ max)

number-Ensures : (max : ℕ) (name v : Str) → Ensures (λ n. n ≤ max) (number max name v)
unfolding number
number-Ensures max name v = elim (Option-cases (parse max v)) [
  | inl e ↦ rw (e, number) failed
  | inr (n, e) ↦ rw (e, number) (value (parse-le max n v e))
]

positive-Ensures : (max : ℕ) (name v : Str) → Ensures (InRange max) (positive max name v)
unfolding positive
positive-Ensures max name v =
    Ensures-bind (λ n. n ≤ max) (number-Ensures max name v)
      λ n h. elim (Bool-cases (n == 0)) [
        | inl e ↦ rw e failed
        | inr e ↦ rw e (value (ground arith))
      ]

-- A port, at u16.
abbrev pub InPort : Option ℕ → Type 0
InPort none = Unit {0}
InPort (some p) = p ≤ max_u16

redirect_port_from-Ensures : (v : Option Str) → Ensures InPort (redirect_port_from v)
unfolding redirect_port_from
redirect_port_from-Ensures none = value tt
redirect_port_from-Ensures (some v) =
    Ensures-bind (λ n. n ≤ max_u16) (number-Ensures max_u16 _ v) (λ n h. value h)

anything : {A : Type 0} (r : Result A) → Ensures (λ a. Unit {0}) r
anything (ok a) = value tt
anything (err e) = failed

-- Every number that the server divides work by is positive and fits its Rust type.
pub record IsUsable {Addr : Type 0} (c : ServerConfig Addr) : Type 0 where
  pub workers : 0 < c.workers
  pub max_blocking_threads : InRange max_u64 c.max_blocking_threads
  pub rate_limit_rps : InRange max_u32 c.rate_limit_rps
  pub max_connections : InRange max_u64 c.max_connections
  pub max_body_bytes : InRange max_u64 c.max_body_bytes
  pub keep_alive_timeout_secs : InRange max_u64 c.keep_alive_timeout_secs
  pub max_concurrent_requests : InRange max_u64 c.max_concurrent_requests
  pub shutdown_drain_secs : InRange max_u64 c.shutdown_drain_secs
  pub http_redirect_port : InPort c.http_redirect_port
  pub request_timeout_secs : InRange max_u64 c.request_timeout_secs
  pub db_pool_size : InRange max_u32 c.db_pool_size

-- The names and secrets of the environment, with their defaults.
pub record IsFrom {Addr : Type 0} (env : Env) (c : ServerConfig Addr) : Type 0 where
  pub jwt_secret :
      c.jwt_secret ≡ or_default (env (bytes "JWT_SECRET")) (bytes "change-me-in-production")
  pub auth_username : c.auth_username ≡ or_default (env (bytes "AUTH_USERNAME")) (bytes "admin")
  pub auth_password : c.auth_password ≡ or_default (env (bytes "AUTH_PASSWORD")) (bytes "secret")

weaker : {max : ℕ} {r : Result ℕ} → Ensures (InRange max) r → Ensures (λ n. 0 < n) r
weaker (value p) = value p.0
weaker failed = failed

module _ (host : Host) where
  from_env-Ensures-env : (env : Env) → Ensures (IsFrom env) (from_env host env)
  unfolding from_env
  from_env-Ensures-env env =
      Ensures-bind (λ n. Unit {0}) (anything _)
        λ port _.
          Ensures-bind (λ a. Unit {0}) (anything _)
            λ addr _.
              Ensures-bind (λ n. Unit {0}) (anything _)
                λ w _.
                  Ensures-bind (λ n. Unit {0}) (anything _)
                    λ a _.
                      Ensures-bind (λ n. Unit {0}) (anything _)
                        λ b _.
                          Ensures-bind (λ n. Unit {0}) (anything _)
                            λ c _.
                              Ensures-bind (λ n. Unit {0}) (anything _)
                                λ d _.
                                  Ensures-bind (λ n. Unit {0}) (anything _)
                                    λ e _.
                                      Ensures-bind (λ n. Unit {0}) (anything _)
                                        λ f _.
                                          Ensures-bind (λ n. Unit {0}) (anything _)
                                            λ g _.
                                              Ensures-bind (λ n. Unit {0}) (anything _)
                                                λ h _.
                                                  Ensures-bind (λ n. Unit {0}) (anything _)
                                                    λ i _.
                                                      Ensures-bind (λ n. Unit {0}) (anything _)
                                                        λ j _. value (record {
                                                          jwt_secret = refl;
                                                          auth_username = refl;
                                                          auth_password = refl;
                                                        })

  pub from_env-IsFrom :
      (env : Env) (c : ServerConfig host.Addr) → from_env host env ≡ ok c → IsFrom env c
  from_env-IsFrom env c e = Ensures-eq (IsFrom env) c (from_env-Ensures-env env) e

module _ (host : Host) (parallel : (n : ℕ) → host.cpus ≡ some n → 0 < n) where
  workers_from-Ensures :
      (v : Option Str) (cpus : Option ℕ)
      → host.cpus ≡ cpus
      → Ensures (λ n. 0 < n) (workers_from v cpus)
  unfolding workers_from
  workers_from-Ensures (some v) cpus e = weaker (positive-Ensures max_u64 _ v)
  workers_from-Ensures none none e = value (omega arith)
  workers_from-Ensures none (some n) e = value (parallel n e)

  from_env-Ensures : (env : Env) → Ensures IsUsable (from_env host env)
  unfolding from_env
  from_env-Ensures env =
      Ensures-bind (λ n. n ≤ max_u16) (number-Ensures _ _ _)
        λ port _.
          Ensures-bind (λ a. Unit {0}) (anything _)
            λ addr _.
              Ensures-bind (λ n. 0 < n) (workers_from-Ensures _ _ refl)
                λ w hw. Ensures-bind (InRange max_u64) (positive-Ensures _ _ _) λ a ha.
                  Ensures-bind (InRange max_u32) (positive-Ensures _ _ _) λ b hb.
                    Ensures-bind (InRange max_u64) (positive-Ensures _ _ _) λ c hc.
                      Ensures-bind (InRange max_u64) (positive-Ensures _ _ _) λ d hd.
                        Ensures-bind (InRange max_u64) (positive-Ensures _ _ _) λ e he.
                          Ensures-bind (InRange max_u64) (positive-Ensures _ _ _) λ f hf.
                            Ensures-bind (InRange max_u64) (positive-Ensures _ _ _) λ g hg.
                              Ensures-bind InPort (redirect_port_from-Ensures _) λ h hh.
                                Ensures-bind (InRange max_u64) (positive-Ensures _ _ _) λ i hi.
                                  Ensures-bind (InRange max_u32) (positive-Ensures _ _ _) λ j hj.
                                    value (record {
                                      workers = hw;
                                      max_blocking_threads = ha;
                                      rate_limit_rps = hb;
                                      max_connections = hc;
                                      max_body_bytes = hd;
                                      keep_alive_timeout_secs = he;
                                      max_concurrent_requests = hf;
                                      shutdown_drain_secs = hg;
                                      http_redirect_port = hh;
                                      request_timeout_secs = hi;
                                      db_pool_size = hj;
                                    })

  -- Where the number of CPUs is not 0: a configuration that loads has at least one worker, and all
  -- its limits and timeouts are positive and fit their Rust types; a port fits u16.
  pub from_env-IsUsable :
      (env : Env) (c : ServerConfig host.Addr) → from_env host env ≡ ok c → IsUsable c
  from_env-IsUsable env c e = Ensures-eq IsUsable c (from_env-Ensures env) e
