-- ===== src/Server/Driving.antt =====
-- src/server/connection.rs: the loop that drives a connection to its end.
pub mod Ended
use multithreaded.Base.{ℕ, suc, Bool, true, false, Option, none, some, List, [], ◌∷◌}

-- How hyper's future of the connection ends.
pub data Closed : Type 0 where
  cleanly incomplete http_error : Closed

-- What is ready when `select!` polls: the connection, the shutdown channel with the value that is
-- read from it, the keep-alive timer.
pub data Ready : Type 0 where
  polled : Option Closed → Option Bool → Bool → Ready

-- Where the loop is: it runs, with its flag, or a `break` has left it.
pub data Drive : Type 0 where
  running : Bool → Drive
  closed : Closed → Drive
  timed_out : Drive

-- The loop, and how often it has called `graceful_shutdown`.
pub record Loop : Type 0 where
  pub drive : Drive
  pub shutdowns : ℕ

unfoldable pub start : Loop
start = record { drive = running false; shutdowns = 0 }

-- The two branches that `graceful` disables.
unfoldable pub poll_rest : Option Bool → Bool → ℕ → Loop
poll_rest (some true) ka_timeout n = record { drive = running true; shutdowns = suc n }
poll_rest (some false) ka_timeout n = record { drive = running false; shutdowns = n }
poll_rest none true n = record { drive = timed_out; shutdowns = n }
poll_rest none false n = record { drive = running false; shutdowns = n }

-- A round of `select!`, which is biased: the first branch that is ready runs.
unfoldable pub poll : Bool → Ready → ℕ → Loop
unfolding poll_rest
poll graceful (polled (some end) changed ka_timeout) n = record {
  drive = closed end;
  shutdowns = n;
}
poll true (polled none changed ka_timeout) n = record { drive = running true; shutdowns = n }
poll false (polled none changed ka_timeout) n = poll_rest changed ka_timeout n

unfoldable pub step : Drive → ℕ → Ready → Loop
unfolding poll
step (running graceful) n ready = poll graceful ready n
step (closed end) n ready = record { drive = closed end; shutdowns = n }
step timed_out n ready = record { drive = timed_out; shutdowns = n }

unfoldable pub run : Loop → List Ready → Loop
unfolding step
run l [] = l
run l (ready ∷ rounds) = run (step l.drive l.shutdowns ready) rounds
