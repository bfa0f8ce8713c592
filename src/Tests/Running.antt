-- ===== src/Tests/Running.antt =====
-- src/server/mod.rs at concrete events, with a counter for the semaphore and a flag for the notify.
use multithreaded.Base.{
  ℕ, suc, ◌≡◌, ◌≢◌, ◌≤◌, ◌+◌, ◌-◌, refl, sym, ◌∙◌, true, false, none, List, [], ◌∷◌, arith,
  if◌then◌else◌, not, ◌&&◌, ltb,
}
use multithreaded.Base.Text.{bytes}
use multithreaded.Config.{ServerConfig, is_blocked, is_allowed}
use multithreaded.Middleware.Semaphore.{counting}
use multithreaded.Server.Notify.{flag}
use multithreaded.Server.Accept.{
  Event, connection, accept_error, task_ends, Server, started, accept_connection, run, step,
}
use multithreaded.Server.Accept.Capacity.{run_capacity}
use multithreaded.Server.Drain.{drained, timed_out, drain}
use multithreaded.Server.Drain.Permit.{IsTracked}
use multithreaded.Server.Drain.Outcomes.{drain_safe}
use multithreaded.Server.Drain.Stale.{early_exit}

-- Two connections at most, and none from address 13.
abbrev config : ServerConfig ℕ
config = record {
  addr = 0;
  workers = 1;
  max_blocking_threads = 1;
  log_level = bytes "info";
  static_dir = bytes "./static";
  rate_limit_rps = 1;
  max_connections = 2;
  tls_cert_path = none;
  tls_key_path = none;
  http_redirect_port = none;
  max_body_bytes = 10;
  keep_alive_timeout_secs = 1;
  max_concurrent_requests = 1;
  shutdown_drain_secs = 1;
  db_url = [];
  jwt_secret = [];
  auth_username = [];
  auth_password = [];
  request_timeout_secs = 1;
  db_pool_size = 1;
  blocked_ips = 13 ∷ [];
  allowed_ips = [];
  proxy_upstream = none;
  proxy_strip_prefix = none;
}

abbrev events : List Event
events = connection 13 ∷ connection 1 ∷ accept_error ∷ connection 2 ∷ connection 3 ∷ []

abbrev start : Server counting flag
start = started counting flag 2

abbrev full : Server counting flag
full = run counting flag config start events

full_tasks : full.tasks ≡ 2
unfolding run started counting is_blocked is_allowed
full_tasks = refl

two : 2 ≤ counting.max_permits
unfolding counting
two = omega arith

run_capacity_example :
    (full.in_flight ≡ full.tasks)
    × (full.tasks ≤ 2)
    × ((accept_connection counting flag config 5 full).tasks ≡ (
        if not (is_blocked config 5) && (is_allowed config 5 && ltb full.tasks 2)
        then suc full.tasks
        else full.tasks))
run_capacity_example = run_capacity counting flag 2 (omega arith) config two events 5

no_permit : false ≢ true
no_permit h = ground arith

-- Both tasks run, and none has ended.
full-IsTracked : IsTracked counting flag 2 full
unfolding run started counting is_blocked is_allowed
full-IsTracked = record {
  counts = record { counted = refl; balanced = refl };
  honest = λ h. absurd (no_permit h);
}

drains : (drain counting flag 1 0 1 full).0 ≡ drained
unfolding drain run started counting is_blocked is_allowed
drains = refl

drained-timed_out : drained ≢ timed_out
drained-timed_out h = ground arith

drain_safe_example : (drain counting flag 1 0 1 full).1.tasks ≡ 0
drain_safe_example =
    drain_safe counting flag 2 (omega arith) 1 0 1 full full-IsTracked
      (λ h. drained-timed_out (sym drains ∙ h))

-- A connection comes and goes; later two are open when the server shuts down.
abbrev before : List Event
before = connection 1 ∷ []

abbrev after : List Event
after = connection 2 ∷ connection 3 ∷ []

abbrev later : Server counting flag
later =
    run counting flag config
      (step counting flag config (run counting flag config start before) task_ends) after

one_left : (run counting flag config start before).in_flight ≡ 1
unfolding run started counting is_blocked is_allowed
one_left = refl

two_open : later.tasks ≡ 2
unfolding run started counting is_blocked is_allowed
two_open = refl

early_exit_example :
    ((drain counting flag 0 0 0 later).0 ≡ drained)
    × ((drain counting flag 0 0 0 later).1.tasks ≡ later.tasks - (0 + 0))
early_exit_example =
    early_exit counting flag 2 (omega arith) config two before after 0 0 0 one_left
      (omega (arith, two_open))
