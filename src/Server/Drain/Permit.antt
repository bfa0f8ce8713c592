-- ===== src/Server/Drain/Permit.antt =====
-- The permit of `all_drained` while tasks end.
use multithreaded.Base.{ℕ, zero, suc, ◌-◌, ◌^◌, ◌<◌, ◌≡◌, refl, true, arith}
use multithreaded.Middleware.Semaphore.{SemaphoreLib}
use multithreaded.Server.Notify.{NotifyLib}
use multithreaded.Server.Accept.{Server, end_task}
use multithreaded.Server.Accept.Capacity.{IsCounted, end_task-IsCounted}
use multithreaded.Server.Drain.{ends}

module _ (sems : SemaphoreLib) (notifies : NotifyLib) where
  open notifies use {
    Notify, has_permit, has_permit-notify_one, poll_notified, poll_notified-ready,
    has_permit-poll_notified,
  }
  open sems use {try_acquire_owned}

  -- A permit is a promise that no task is left.
  abbrev pub IsHonest : Server sems notifies → Type 0
  IsHonest s = has_permit s.all_drained ≡ true → s.tasks ≡ 0

  -- And the last task has left one.
  abbrev pub IsPrompt : Server sems notifies → Type 0
  IsPrompt s = s.tasks ≡ 0 → has_permit s.all_drained ≡ true

  pub end_task-keeps :
      (tasks : ℕ) (s : Server sems notifies)
      → has_permit s.all_drained ≡ true
      → has_permit (end_task sems notifies tasks s).all_drained ≡ true
  unfolding end_task
  end_task-keeps zero s h = h
  end_task-keeps (suc tasks) s h = ground (arith, has_permit-notify_one s.all_drained)

  pub end_task-last :
      (s : Server sems notifies)
      → s.in_flight ≡ 1
      → s.tasks ≡ 1
      → has_permit (end_task sems notifies s.tasks s).all_drained ≡ true
  unfolding end_task
  end_task-last s h k = ground (arith, has_permit-notify_one s.all_drained)

  pub end_task-tasks :
      (tasks : ℕ) (s : Server sems notifies)
      → s.tasks ≡ tasks
      → (end_task sems notifies tasks s).tasks ≡ tasks - 1
  unfolding end_task
  end_task-tasks zero s e = omega arith
  end_task-tasks (suc tasks) s e = omega arith

  pub end_task-IsHonest :
      (tasks : ℕ) (s : Server sems notifies)
      → s.tasks ≡ tasks
      → s.in_flight ≡ s.tasks
      → IsHonest s
      → IsHonest (end_task sems notifies tasks s)
  unfolding end_task
  end_task-IsHonest zero s e c h = h
  end_task-IsHonest (suc tasks) s e c h = ground arith

  pub end_task-IsPrompt :
      (tasks : ℕ) (s : Server sems notifies)
      → s.tasks ≡ tasks
      → s.in_flight ≡ s.tasks
      → IsPrompt s
      → IsPrompt (end_task sems notifies tasks s)
  unfolding end_task
  end_task-IsPrompt zero s e c h = h
  end_task-IsPrompt (suc tasks) s e c h = ground (arith, has_permit-notify_one s.all_drained)

  pub ends-tasks : (k : ℕ) (s : Server sems notifies) → (ends sems notifies k s).tasks ≡ s.tasks - k
  unfolding ends
  ends-tasks zero s = omega arith
  ends-tasks (suc k) s =
      omega (arith, ends-tasks k (end_task sems notifies s.tasks s), end_task-tasks s.tasks s refl)

  pub ends-keeps :
      (k : ℕ) (s : Server sems notifies)
      → has_permit s.all_drained ≡ true
      → has_permit (ends sems notifies k s).all_drained ≡ true
  unfolding ends
  ends-keeps zero s h = h
  ends-keeps (suc k) s h =
      ends-keeps k (end_task sems notifies s.tasks s) (end_task-keeps s.tasks s h)

  -- While tasks end, the counter stays true and the permit honest.
  pub record IsTracked (cap : ℕ) (s : Server sems notifies) : Type 0 where
    pub counts : IsCounted sems notifies cap s
    pub honest : IsHonest s

  module _ (cap : ℕ) (fits : cap < 2 ^ 64) where
    pub end_task-IsTracked :
        (s : Server sems notifies)
        → IsTracked cap s
        → IsTracked cap (end_task sems notifies s.tasks s)
    end_task-IsTracked s h = record {
      counts = end_task-IsCounted sems notifies cap fits s.tasks s refl h.counts;
      honest = end_task-IsHonest s.tasks s refl h.counts.counted h.honest;
    }

    pub ends-IsTracked :
        (k : ℕ) (s : Server sems notifies)
        → IsTracked cap s
        → IsTracked cap (ends sems notifies k s)
    unfolding ends
    ends-IsTracked zero s h = h
    ends-IsTracked (suc k) s h =
        ends-IsTracked k (end_task sems notifies s.tasks s) (end_task-IsTracked s h)

    pub ends-IsCounted :
        (k : ℕ) (s : Server sems notifies)
        → IsCounted sems notifies cap s
        → IsCounted sems notifies cap (ends sems notifies k s)
    unfolding ends
    ends-IsCounted zero s h = h
    ends-IsCounted (suc k) s h =
        ends-IsCounted k (end_task sems notifies s.tasks s)
          (end_task-IsCounted sems notifies cap fits s.tasks s refl h)

    pub ends-IsPrompt :
        (k : ℕ) (s : Server sems notifies)
        → IsCounted sems notifies cap s
        → IsPrompt s
        → IsPrompt (ends sems notifies k s)
    unfolding ends
    ends-IsPrompt zero s c h = h
    ends-IsPrompt (suc k) s c h =
        ends-IsPrompt k (end_task sems notifies s.tasks s)
          (end_task-IsCounted sems notifies cap fits s.tasks s refl c)
          (end_task-IsPrompt s.tasks s refl c.counted h)
