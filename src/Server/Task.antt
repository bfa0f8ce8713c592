-- ===== src/Server/Task.antt =====
-- src/server/task.rs. A blocking closure runs on another thread: it returns, panics or is cancelled.
use multithreaded.Base.Text.{Str, bytes}

-- What a panic carries, as far as the code looks.
pub data Payload : Type 0 where
  owned borrowed : Str → Payload
  opaque : Payload

-- A closure's end, as `spawn_blocking` reports it.
pub data Joined {ℓ} (R : Type ℓ) : Type ℓ where
  returned : R → Joined R
  panicked : Payload → Joined R
  cancelled : Joined R

pub data TaskError : Type 0 where
  panic : Str → TaskError
  task_cancelled : TaskError

pub data TaskResult {ℓ} (R : Type ℓ) : Type ℓ where
  done : R → TaskResult R
  task_failed : TaskError → TaskResult R

unfoldable pub panic_message : Payload → Str
panic_message (owned s) = s
panic_message (borrowed s) = s
panic_message opaque = bytes "unknown panic payload"

unfoldable pub run_blocking {ℓ} : {R : Type ℓ} → Joined R → TaskResult R
unfolding panic_message
run_blocking (returned r) = done r
run_blocking (panicked payload) = task_failed (panic (panic_message payload))
run_blocking cancelled = task_failed task_cancelled

-- The end of a closure that computes `r`.
unfoldable pub joined {ℓ} : {R : Type ℓ} → Joined {0} Unit → R → Joined R
joined (returned _) r = returned r
joined (panicked payload) r = panicked payload
joined cancelled r = cancelled
