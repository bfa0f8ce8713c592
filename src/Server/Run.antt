-- ===== src/Server/Run.antt =====
-- src/server/mod.rs: `Server::run`, the start, the accept loop and the drain, one after the other.
use multithreaded.Base.{ℕ, Bool, true, Option, none, some, List, [], ◌∷◌, if◌then◌else◌}
use mathlib.Core.Option.{map}
use multithreaded.Base.Results.{Result, ok, ◌>>=◌}
use multithreaded.Config.{ServerConfig}
use multithreaded.Server.Accept as Accept
use multithreaded.Server.Accept.{Event}
use multithreaded.Server.Application.{Platform}
use multithreaded.Server.Drain.{Outcome, drain}
use multithreaded.Server.Notify.{NotifyLib}
use multithreaded.Server.Startup.{Machine, Conditions, Started, ServerError, prepare, start}

-- What can end the wait for a signal: SIGINT, SIGTERM, and an error of `ctrl_c`.
pub data Signal : Type 0 where
  interrupt terminate ctrl_c_error : Signal

-- What the loop meets: its own events, and whatever its shutdown future waits for.
pub data Meeting (W : Type 0) : Type 0 where
  loop : Event → Meeting W
  wake : W → Meeting W

-- Whether a signal resolves `shutdown_signal`, with the handler for SIGTERM registered or not.
unfoldable pub shutdown_signal : Bool → Signal → Bool
shutdown_signal registered interrupt = true
shutdown_signal registered terminate = registered
shutdown_signal registered ctrl_c_error = true

-- The events up to where the shutdown resolves, which is polled first; `none` if it does not.
unfoldable pub until_shutdown : {W : Type 0} → (W → Bool) → List (Meeting W) → Option (List Event)
until_shutdown shutdown [] = none
until_shutdown shutdown (loop e ∷ ms) = map (λ es. e ∷ es) (until_shutdown shutdown ms)
until_shutdown shutdown (wake w ∷ ms) =
    let rest = until_shutdown shutdown ms in if shutdown w then some [] else rest

-- What the accept loop meets, and how many tasks end in each phase of the drain.
pub record Course (W : Type 0) : Type 0 where
  pub meetings : List (Meeting W)
  pub settling : ℕ
  pub more : ℕ
  pub ending : ℕ

abbrev pub Served : (p : Platform) → Machine p → NotifyLib → Type 0
Served p machine notifies = Accept.Server machine.semaphores notifies

module _ (p : Platform) (machine : Machine p) (notifies : NotifyLib) {Addr : Type 0}
    (cfg : ServerConfig Addr) where
  -- The state of the loop at the shutdown.
  unfoldable pub at_shutdown : List Event → Started p machine → Served p machine notifies
  at_shutdown events s =
      Accept.run machine.semaphores notifies cfg
        (Accept.started machine.semaphores notifies s.connection_limit) events

  module _ {W : Type 0} (shutdown : W → Bool) (course : Course W) where
    -- `none` for a server that still runs.
    unfoldable pub serve : Started p machine → Option (Outcome × Served p machine notifies)
    unfolding at_shutdown until_shutdown
    serve s =
        map
          (λ events.
            drain machine.semaphores notifies course.settling course.more course.ending
              (at_shutdown events s))
          (until_shutdown shutdown course.meetings)

    unfoldable pub run_with_shutdown :
        Conditions p machine
        → Result (ServerError p machine) (Option (Outcome × Served p machine notifies))
    unfolding serve
    run_with_shutdown conditions = do s ← (start p machine cfg conditions).1; ok (serve s)

    -- On a listener that is bound already.
    unfoldable pub run_on_listener :
        Conditions p machine
        → Result (ServerError p machine) (Option (Outcome × Served p machine notifies))
    unfolding serve
    run_on_listener conditions = do
      s ← (prepare p machine cfg conditions conditions.local_addr).1
      ok (serve s)

  -- With the signals of the operating system.
  unfoldable pub run :
      Bool
      → Course Signal
      → Conditions p machine
      → Result (ServerError p machine) (Option (Outcome × Served p machine notifies))
  unfolding run_with_shutdown shutdown_signal
  run registered course conditions =
      run_with_shutdown (shutdown_signal registered) course conditions
