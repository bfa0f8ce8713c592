-- ===== src/Main/Runs.antt =====
-- What a run of the program that ends without an error has done.
use multithreaded.Base.{ℕ, ◌+◌, ◌≤◌, ◌<◌, ◌≡◌, ◌≢◌, some, Option, List}
use multithreaded.Base.Results.{ok}
use multithreaded.Config as Config
use multithreaded.Config.{ServerConfig, from_env, max_u64}
use multithreaded.Config.Loaded.{IsUsable}
use multithreaded.Main.{World, Outside, conditions}
use multithreaded.Server.Accept.{Event}
use multithreaded.Server.Application.{Platform}
use multithreaded.Server.Drain.{Outcome, timed_out, drain}
use multithreaded.Server.Run.{Served, at_shutdown, until_shutdown, shutdown_signal}
use multithreaded.Server.Startup.{Started}
use multithreaded.Server.Startup.Login.{IsStarted}

module _ (p : Platform) (world : World p) (parallel : (n : ℕ) → world.host.cpus ≡ some n → 0 < n)
    (outside : Outside p world) where
  open world use {host, runtimes, notifies, machine}

  -- The server in its loop at the shutdown.
  abbrev Loop : ServerConfig host.Addr → List Event → Started p machine → Served p machine notifies
  Loop c events s = at_shutdown p machine notifies c events s

  abbrev heard : Option (List Event)
  heard = until_shutdown (shutdown_signal outside.sigterm) outside.course.meetings

  -- The configuration, the start and the loop behind an end.
  pub record IsServed (end : Outcome × Served p machine notifies) : Type 0 where
    pub c : ServerConfig host.Addr
    pub s : Started p machine
    pub loaded : from_env host outside.env ≡ Config.ok c
    pub usable : IsUsable c
    pub started : IsStarted p machine c (conditions p world outside) s
    pub events : List Event
    pub shut_down : heard ≡ some events
    pub served :
        drain machine.semaphores notifies outside.course.settling outside.course.more
          outside.course.ending
          (Loop c events s)
        ≡ end
    pub counted : (Loop c events s).in_flight ≡ (Loop c events s).tasks
    pub bounded : (Loop c events s).tasks ≤ c.max_connections
    pub drained :
        (Loop c events s).tasks
          ≤ outside.course.settling + outside.course.more + outside.course.ending
        → end.0 ≢ timed_out
