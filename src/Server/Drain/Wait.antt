-- ===== src/Server/Drain/Wait.antt =====
-- The wait with its timeout.
use multithreaded.Base.{
  ℕ, zero, suc, ◌^◌, ◌≤◌, ◌<◌, ◌≡◌, ◌≢◌, refl, sym, ◌∙◌, false, arith, Bool-cases, inl, inr,
}
use multithreaded.Middleware.Semaphore.{SemaphoreLib}
use multithreaded.Server.Notify.{NotifyLib}
use multithreaded.Server.Accept.{Server, end_task}
use multithreaded.Server.Accept.Capacity.{IsCounted, end_task-IsCounted}
use multithreaded.Server.Drain.{drained, timed_out, wait}
use multithreaded.Server.Drain.Permit.{
  IsPrompt, IsTracked, end_task-IsTracked, end_task-IsPrompt, end_task-tasks,
}

module _ (sems : SemaphoreLib) (notifies : NotifyLib) (cap : ℕ) (fits : cap < 2 ^ 64) where
  open notifies use {has_permit, poll_notified, poll_notified-ready, has_permit-poll_notified}

  abbrev polled : Server sems notifies → Server sems notifies
  polled s = record s { all_drained = (poll_notified s.all_drained).1 }

  -- Once the future has been polled, a permit comes from the last task only.
  polled-IsTracked :
      (s : Server sems notifies)
      → IsCounted sems notifies cap s
      → IsTracked sems notifies cap (polled s)
  polled-IsTracked s h = record {
    counts = record { counted = h.counted; balanced = h.balanced };
    honest = λ e. cc (has_permit-poll_notified s.all_drained);
  }

  pub wait_safe :
      (k : ℕ) (s : Server sems notifies)
      → IsTracked sems notifies cap s
      → (wait sems notifies k s).0 ≢ timed_out
      → (wait sems notifies k s).1.tasks ≡ 0
  unfolding wait
  wait_safe zero s h w = elim (Bool-cases ((poll_notified s.all_drained).0)) [
    | inl e ↦ rw (e, wait) (h.honest (sym (poll_notified-ready s.all_drained) ∙ e))
    | inr e ↦ absurd (w (rw (e, wait)))
  ]
  wait_safe (suc k) s h w = elim (Bool-cases ((poll_notified s.all_drained).0)) [
    | inl e ↦ rw (e, wait) (h.honest (sym (poll_notified-ready s.all_drained) ∙ e))
    | inr e ↦
        rw (e, wait)
          (wait_safe k (end_task sems notifies s.tasks (polled s))
            (end_task-IsTracked sems notifies cap fits (polled s) (polled-IsTracked s h.counts))
            (rw (e, wait) at w))
  ]

  pub wait_ends :
      (k : ℕ) (s : Server sems notifies)
      → IsCounted sems notifies cap s
      → IsPrompt sems notifies s
      → s.tasks ≤ k
      → (wait sems notifies k s).0 ≡ drained
  unfolding wait
  wait_ends zero s c p h = rw (poll_notified-ready s.all_drained ∙ p (omega arith), wait)
  wait_ends (suc k) s c p h = elim (Bool-cases ((poll_notified s.all_drained).0)) [
    | inl e ↦ rw (e, wait)
    | inr e ↦
        rw (e, wait)
          (wait_ends k (end_task sems notifies s.tasks (polled s))
            (end_task-IsCounted sems notifies cap fits s.tasks (polled s) refl
              (polled-IsTracked s c).counts)
            (end_task-IsPrompt sems notifies s.tasks (polled s) refl c.counted (unspent s p e))
            (omega (arith, end_task-tasks sems notifies s.tasks (polled s) refl)))
  ]
    where
      unspent :
          (s : Server sems notifies)
          → IsPrompt sems notifies s
          → (poll_notified s.all_drained).0 ≡ false
          → IsPrompt sems notifies (polled s)
      unspent s p e z = cc (poll_notified-ready s.all_drained, p z)
