-- ===== src/Tests/Loading.antt =====
-- src/config.rs at a concrete environment.
use multithreaded.Base.{ℕ, ◌≡◌, ◌<◌, refl, none, some, [], arith, if◌then◌else◌}
use multithreaded.Base.Text.{Str, bytes, str_eq}
use multithreaded.Config.{Host, ServerConfig, Env, Result, ok, err, from_env, ◌>>=◌}
use multithreaded.Base.Decimal.{parse}

-- Every address parses; two CPUs.
abbrev pub host : Host
host = record { Addr = Str; parse_addr = λ s. some s; parse_ip = λ s. some 7; cpus = some 2 }

pub host-parallel : (n : ℕ) → host.cpus ≡ some n → 0 < n
host-parallel n h = ground arith

abbrev pub environment : Env
environment name =
    if str_eq name (bytes "PORT")
    then some (bytes "9000")
    else if str_eq name (bytes "ALLOWED_IPS")
    then some (bytes "10.0.0.1")
    else none

abbrev or_else : Result (ServerConfig Str) → ServerConfig Str → ServerConfig Str
or_else (ok c) d = c
or_else (err e) d = d

abbrev pub blank : ServerConfig Str
blank = record {
  addr = [];
  workers = 0;
  max_blocking_threads = 0;
  log_level = [];
  static_dir = [];
  rate_limit_rps = 0;
  max_connections = 0;
  tls_cert_path = none;
  tls_key_path = none;
  http_redirect_port = none;
  max_body_bytes = 0;
  keep_alive_timeout_secs = 0;
  max_concurrent_requests = 0;
  shutdown_drain_secs = 0;
  db_url = [];
  jwt_secret = [];
  auth_username = [];
  auth_password = [];
  request_timeout_secs = 0;
  db_pool_size = 0;
  blocked_ips = [];
  allowed_ips = [];
  proxy_upstream = none;
  proxy_strip_prefix = none;
}

abbrev pub loaded : ServerConfig Str
loaded = or_else (from_env host environment) blank

pub loads : from_env host environment ≡ ok loaded
unfolding from_env ◌>>=◌ parse str_eq bytes
loads = refl
