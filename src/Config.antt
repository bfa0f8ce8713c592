-- ===== src/Config.antt =====
-- src/config.rs. The environment is a function from names to values; the address parsers of the
-- standard library and the number of CPUs are arguments.
pub mod Loaded
use multithreaded.Base.{
  ℕ, suc, ◌-◌, ◌^◌, Bool, true, false, ◌||◌, Option, none, some, List, [], ◌∷◌, ◌++◌, if◌then◌else◌,
  ◌==◌, any,
}
use multithreaded.Base.Text.{Str, bytes, is_empty, split, trim, filter_map}
use multithreaded.Base.Decimal.{parse, to_string}

-- Addresses stand for themselves: an `IpAddr` by a number, a `SocketAddr` by `Addr`.
pub record Host : Type 1 where
  pub Addr : Type 0
  pub parse_addr : Str → Option Addr
  pub parse_ip : Str → Option ℕ
  -- `available_parallelism`; `none` where it fails.
  pub cpus : Option ℕ

pub record ServerConfig (Addr : Type 0) : Type 0 where
  pub addr : Addr
  pub workers : ℕ
  pub max_blocking_threads : ℕ
  pub log_level : Str
  pub static_dir : Str
  pub rate_limit_rps : ℕ
  pub max_connections : ℕ
  pub tls_cert_path : Option Str
  pub tls_key_path : Option Str
  pub http_redirect_port : Option ℕ
  pub max_body_bytes : ℕ
  pub keep_alive_timeout_secs : ℕ
  pub max_concurrent_requests : ℕ
  pub shutdown_drain_secs : ℕ
  pub db_url : Str
  pub jwt_secret : Str
  pub auth_username : Str
  pub auth_password : Str
  pub request_timeout_secs : ℕ
  pub db_pool_size : ℕ
  pub blocked_ips : List ℕ
  pub allowed_ips : List ℕ
  pub proxy_upstream : Option Str
  pub proxy_strip_prefix : Option Str

pub data ConfigError : Type 0 where
  invalid_addr : Str → ConfigError
  invalid_value : Str → Str → ConfigError

pub data Result {ℓ} (A : Type ℓ) : Type ℓ where
  ok : A → Result A
  err : ConfigError → Result A

infixl 5 ◌>>=◌
unfoldable pub ◌>>=◌ {ℓ κ} : {A : Type ℓ} {B : Type κ} → Result A → (A → Result B) → Result B
ok a >>= f = f a
err e >>= f = err e

abbrev pub Env : Type 0
Env = Str → Option Str

abbrev pub or_default : Option Str → Str → Str
or_default none d = d
or_default (some v) d = v

-- `v.parse().map_err(|_| InvalidValue(name, v))` at a type with the largest value `max`.
unfoldable pub number : ℕ → Str → Str → Result ℕ
number max name v = elim (parse max v) [ none ↦ err (invalid_value name v) | some n ↦ ok n ]

-- The same, and then the check that the value is not 0.
unfoldable pub positive : ℕ → Str → Str → Result ℕ
unfolding number
positive max name v = do
  n ← number max name v
  if n == 0 then err (invalid_value name (bytes "must be > 0")) else ok n

abbrev pub max_u16 : ℕ
max_u16 = 2 ^ 16 - 1

abbrev pub max_u32 : ℕ
max_u32 = 2 ^ 32 - 1

abbrev pub max_u64 : ℕ
max_u64 = 2 ^ 64 - 1

workers_from : Option Str → Option ℕ → Result ℕ
workers_from (some v) cpus = positive max_u64 (bytes "WORKERS") v
workers_from none none = ok 4
workers_from none (some n) = ok n

redirect_port_from : Option Str → Result (Option ℕ)
redirect_port_from none = ok none
redirect_port_from (some v) = do p ← number max_u16 (bytes "HTTP_REDIRECT_PORT") v; ok (some p)

module _ (host : Host) where
  open host use {Addr, parse_addr, parse_ip, cpus}

  unfoldable pub parse_ip_list : Str → List ℕ
  parse_ip_list s = filter_map (λ ip. parse_ip (trim ip)) (split b',' s)

  addr_from : Str → Result Addr
  addr_from s = elim (parse_addr s) [ none ↦ err (invalid_addr s) | some a ↦ ok a ]

  unfoldable pub from_env : Env → Result (ServerConfig Addr)
  unfolding positive number workers_from redirect_port_from addr_from parse_ip_list
  from_env env = do
    let host_name = or_default (env (bytes "HOST")) (bytes "0.0.0.0")
    port ← number max_u16 (bytes "PORT") (or_default (env (bytes "PORT")) (bytes "8080"))
    addr ← addr_from (host_name ++ (bytes ":" ++ to_string port))
    workers ← workers_from (env (bytes "WORKERS")) cpus
    max_blocking_threads ←
        positive max_u64 (bytes "BLOCKING_THREADS")
          (or_default (env (bytes "BLOCKING_THREADS")) (bytes "512"))
    rate_limit_rps ←
        positive max_u32 (bytes "RATE_LIMIT_RPS")
          (or_default (env (bytes "RATE_LIMIT_RPS")) (bytes "100"))
    max_connections ←
        positive max_u64 (bytes "MAX_CONNECTIONS")
          (or_default (env (bytes "MAX_CONNECTIONS")) (bytes "10000"))
    max_body_bytes ←
        positive max_u64 (bytes "MAX_BODY_BYTES")
          (or_default (env (bytes "MAX_BODY_BYTES")) (bytes "4194304"))
    keep_alive_timeout_secs ←
        positive max_u64 (bytes "KEEP_ALIVE_TIMEOUT")
          (or_default (env (bytes "KEEP_ALIVE_TIMEOUT")) (bytes "75"))
    max_concurrent_requests ←
        positive max_u64 (bytes "MAX_CONCURRENT_REQUESTS")
          (or_default (env (bytes "MAX_CONCURRENT_REQUESTS")) (bytes "5000"))
    shutdown_drain_secs ←
        positive max_u64 (bytes "SHUTDOWN_DRAIN_SECS")
          (or_default (env (bytes "SHUTDOWN_DRAIN_SECS")) (bytes "30"))
    http_redirect_port ← redirect_port_from (env (bytes "HTTP_REDIRECT_PORT"))
    request_timeout_secs ←
        positive max_u64 (bytes "REQUEST_TIMEOUT_SECS")
          (or_default (env (bytes "REQUEST_TIMEOUT_SECS")) (bytes "30"))
    db_pool_size ←
        positive max_u32 (bytes "DB_POOL_SIZE")
          (or_default (env (bytes "DB_POOL_SIZE")) (bytes "5"))
    ok (record {
      addr = addr;
      workers = workers;
      max_blocking_threads = max_blocking_threads;
      log_level = or_default (env (bytes "LOG_LEVEL")) (bytes "info");
      static_dir = or_default (env (bytes "STATIC_DIR")) (bytes "./static");
      rate_limit_rps = rate_limit_rps;
      max_connections = max_connections;
      tls_cert_path = env (bytes "TLS_CERT_PATH");
      tls_key_path = env (bytes "TLS_KEY_PATH");
      http_redirect_port = http_redirect_port;
      max_body_bytes = max_body_bytes;
      keep_alive_timeout_secs = keep_alive_timeout_secs;
      max_concurrent_requests = max_concurrent_requests;
      shutdown_drain_secs = shutdown_drain_secs;
      db_url = or_default (env (bytes "DATABASE_URL")) (bytes "sqlite:./data.db");
      jwt_secret = or_default (env (bytes "JWT_SECRET")) (bytes "change-me-in-production");
      auth_username = or_default (env (bytes "AUTH_USERNAME")) (bytes "admin");
      auth_password = or_default (env (bytes "AUTH_PASSWORD")) (bytes "secret");
      request_timeout_secs = request_timeout_secs;
      db_pool_size = db_pool_size;
      blocked_ips = parse_ip_list (or_default (env (bytes "BLOCKED_IPS")) []);
      allowed_ips = parse_ip_list (or_default (env (bytes "ALLOWED_IPS")) []);
      proxy_upstream = env (bytes "PROXY_UPSTREAM");
      proxy_strip_prefix = env (bytes "PROXY_STRIP_PREFIX");
    })

module _ {Addr : Type 0} (config : ServerConfig Addr) where
  unfoldable pub is_blocked : ℕ → Bool
  is_blocked ip = any (λ jp. jp == ip) config.blocked_ips

  unfoldable pub is_allowed : ℕ → Bool
  is_allowed ip = is_empty config.allowed_ips || any (λ jp. jp == ip) config.allowed_ips
