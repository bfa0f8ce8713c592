-- ===== src/Server/Accept.antt =====
-- src/server/mod.rs: the accept loop, as steps between which the tasks of the connections end.
pub mod Capacity
use multithreaded.Base.{
  ℕ, zero, suc, ◌+◌, ◌-◌, ◌%◌, ◌^◌, Bool, true, false, not, Option, none, some, List, [], ◌∷◌,
  if◌then◌else◌, ◌==◌,
}
use multithreaded.Config.{ServerConfig, is_blocked, is_allowed}
use multithreaded.Metrics.{Metrics, up, down}
use multithreaded.Metrics as Metrics
use multithreaded.Middleware.Semaphore.{SemaphoreLib}
use multithreaded.Server.Notify.{NotifyLib}

-- `accept()` returns a connection from an address, or fails; a connection's task ends, whether its
-- TLS handshake failed or `handle_connection` returned.
pub data Event : Type 0 where
  connection : ℕ → Event
  accept_error : Event
  task_ends : Event

module _ (sems : SemaphoreLib) (notifies : NotifyLib) where
  open sems use {Semaphore, with_permits, try_acquire_owned, drop_permit}
  open notifies use {Notify, fresh, notify_one}

  -- `tasks` counts the spawned tasks that have not ended; the code has no such variable.
  pub record Server : Type 0 where
    pub connection_limit : Semaphore
    pub in_flight : ℕ
    pub all_drained : Notify
    pub metrics : Metrics
    pub tasks : ℕ

  unfoldable pub started : ℕ → Server
  started max_connections = record {
    connection_limit = with_permits max_connections;
    in_flight = 0;
    all_drained = fresh;
    metrics = Metrics.new;
    tasks = 0;
  }

  -- The end of the branch of an accepted connection, after the IP filter.
  unfoldable pub admit : Server → Server
  admit s = elim (try_acquire_owned s.connection_limit) [
    | none ↦ s
    | some permits ↦ record s {
      connection_limit = permits;
      in_flight = up s.in_flight;
      tasks = suc s.tasks;
    }
  ]

  unfoldable pub reject_ip : Server → Server
  reject_ip s = record s {
    metrics = record (s.metrics) {
      connections_rejected_ip = up (s.metrics).connections_rejected_ip;
    };
  }

  abbrev pub count_accepted : Server → Server
  count_accepted s = record s {
    metrics = record (s.metrics) { connections_accepted = up (s.metrics).connections_accepted };
  }

  -- The end of a task: the counter goes down, the last one notifies, and the permit is dropped.
  unfoldable pub end_task : ℕ → Server → Server
  end_task zero s = s
  end_task (suc tasks) s = record s {
    connection_limit = drop_permit s.connection_limit;
    in_flight = down s.in_flight;
    all_drained = if s.in_flight == 1 then notify_one s.all_drained else s.all_drained;
    tasks = tasks;
  }

module _ (sems : SemaphoreLib) (notifies : NotifyLib) {Addr : Type 0}
    (config : ServerConfig Addr) where
  unfoldable pub accept_connection : ℕ → Server sems notifies → Server sems notifies
  unfolding admit reject_ip
  accept_connection ip s =
      if is_blocked config ip
      then reject_ip sems notifies (count_accepted sems notifies s)
      else if not (is_allowed config ip)
      then reject_ip sems notifies (count_accepted sems notifies s)
      else admit sems notifies (count_accepted sems notifies s)

  unfoldable pub step : Server sems notifies → Event → Server sems notifies
  unfolding accept_connection end_task
  step s (connection ip) = accept_connection ip s
  step s accept_error = s
  step s task_ends = end_task sems notifies s.tasks s

  unfoldable pub run : Server sems notifies → List Event → Server sems notifies
  unfolding step
  run s [] = s
  run s (e ∷ es) = run (step s e) es
