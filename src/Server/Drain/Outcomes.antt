-- ===== src/Server/Drain/Outcomes.antt =====
-- When the drain returns, and with what still in flight.
use multithreaded.Base.{ℕ, ◌+◌, ◌^◌, ◌≤◌, ◌<◌, ◌≡◌, ◌≢◌, arith}
use multithreaded.Middleware.Semaphore.{SemaphoreLib}
use multithreaded.Server.Notify.{NotifyLib}
use multithreaded.Server.Accept.{Server}
use multithreaded.Server.Accept.Capacity.{IsCounted}
use multithreaded.Server.Drain.{drained, timed_out, ends, wait, drain}
use multithreaded.Server.Drain.Permit.{IsTracked, ends-IsTracked, ends-IsCounted, ends-tasks}
use multithreaded.Server.Drain.Wait.{wait_safe, wait_ends}

module _ (sems : SemaphoreLib) (notifies : NotifyLib) (cap : ℕ) (fits : cap < 2 ^ 64) where
  open notifies use {has_permit, poll_notified, poll_notified-ready}
  open sems use {try_acquire_owned}

  -- Where the counter is right and no permit was left over from earlier: however the last tasks
  -- end, the drain returns before its timeout only when none is left.
  pub drain_safe :
      (settling more k : ℕ) (s : Server sems notifies)
      → IsTracked sems notifies cap s
      → (drain sems notifies settling more k s).0 ≢ timed_out
      → (drain sems notifies settling more k s).1.tasks ≡ 0
  unfolding drain
  drain_safe settling more k s h w =
      let h₁ = ends-IsTracked sems notifies cap fits settling s h in
      let h₂ = ends-IsTracked sems notifies cap fits more (ends sems notifies settling s) h₁ in
      ground (arith, wait_safe sems notifies cap fits k _ h₂, h₁.counts.counted, h₂.counts.counted)

  -- Where the counter is right, and all tasks end before the timeout: the drain does not time out.
  pub drain_ends :
      (settling more k : ℕ) (s : Server sems notifies)
      → IsCounted sems notifies cap s
      → s.tasks ≤ settling + more + k
      → (drain sems notifies settling more k s).0 ≢ timed_out
  unfolding drain
  drain_ends settling more k s c h =
      let s₁ = ends sems notifies settling s in
      let s₂ = ends sems notifies more s₁ in
      let c₂ =
        ends-IsCounted sems notifies cap fits more s₁
          (ends-IsCounted sems notifies cap fits settling s c) in
      ground (
        arith,
        wait_busy k s₂ c₂,
        c₂.counted,
        ends-tasks sems notifies settling s,
        ends-tasks sems notifies more s₁,
      )
    where
      wait_busy :
          (k : ℕ) (s : Server sems notifies)
          → IsCounted sems notifies cap s
          → 0 < s.tasks
          → s.tasks ≤ k
          → (wait sems notifies k s).0 ≡ drained
      wait_busy k s c p h =
          wait_ends sems notifies cap fits k s c (λ z. absurd (omega (arith, z))) h
