-- ===== src/Server/Drain.antt =====
-- src/server/mod.rs: the drain after the accept loop, while the last tasks end.
pub mod Permit
pub mod Wait
pub mod Outcomes
pub mod Stale
use multithreaded.Base.{ℕ, zero, suc, Bool, true, false, if◌then◌else◌, ◌==◌}
use multithreaded.Middleware.Semaphore.{SemaphoreLib}
use multithreaded.Server.Notify.{NotifyLib}
use multithreaded.Server.Accept.{Server, end_task}

-- `idle`: nothing was in flight. The other two are the arms of the `match` on the timeout.
pub data Outcome : Type 0 where
  idle drained timed_out : Outcome

module _ (sems : SemaphoreLib) (notifies : NotifyLib) where
  open notifies use {poll_notified}

  -- `k` tasks end.
  unfoldable pub ends : ℕ → Server sems notifies → Server sems notifies
  unfolding end_task
  ends zero s = s
  ends (suc k) s = ends k (end_task sems notifies s.tasks s)

  -- `timeout(drain_timeout, draining)`, where `k` tasks end before the timeout: the future is
  -- polled, and again after each of them.
  unfoldable pub wait : ℕ → Server sems notifies → Outcome × Server sems notifies
  unfolding end_task
  wait zero s = elim ((poll_notified s.all_drained).0) [
    | true ↦ (drained, record s { all_drained = (poll_notified s.all_drained).1 })
    | false ↦ (timed_out, record s { all_drained = (poll_notified s.all_drained).1 })
  ]
  wait (suc k) s = elim ((poll_notified s.all_drained).0) [
    | true ↦ (drained, record s { all_drained = (poll_notified s.all_drained).1 })
    | false ↦ wait k (
        end_task sems notifies s.tasks (record s { all_drained = (poll_notified s.all_drained).1 }))
  ]

  -- Before the broadcast `settling` tasks end, between the two loads of the counter `more`, and
  -- during the wait `k`.
  unfoldable pub drain : ℕ → ℕ → ℕ → Server sems notifies → Outcome × Server sems notifies
  unfolding ends wait
  drain settling more k s =
      let s₁ = ends settling s in
      let s₂ = ends more s₁ in
      let waited = wait k s₂ in
      if s₁.in_flight == 0 then (idle, s₁) else if s₂.in_flight == 0 then (idle, s₂) else waited
