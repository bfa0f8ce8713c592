-- ===== src/Server/Accept/Capacity.antt =====
-- The accept loop's bound on connections, and its counter.
use multithreaded.Base.{
  ℕ, zero, suc, ◌+◌, ◌^◌, ◌≤◌, ◌<◌, ◌≡◌, refl, not, List, [], ◌∷◌, if◌then◌else◌, ltb, ◌&&◌, arith,
  Option-cases, inl, inr,
}
use multithreaded.Config.{ServerConfig, is_blocked, is_allowed}
use multithreaded.Middleware.Semaphore.{SemaphoreLib}
use multithreaded.Server.Notify.{NotifyLib}
use multithreaded.Server.Accept.{
  Event, connection, accept_error, task_ends, Server, started, admit, reject_ip, count_accepted,
  end_task, accept_connection, step, run,
}

module _ (sems : SemaphoreLib) (notifies : NotifyLib) where
  open sems use {
    available_permits, available-with_permits, try_acquire_none, try_acquire_some,
    try_acquire_owned, available-drop_permit,
  }
  open notifies use {has_permit, has_permit-notify_one}

  -- The counter counts the tasks, each of which holds one of the permits.
  pub record IsCounted (cap : ℕ) (s : Server sems notifies) : Type 0 where
    pub counted : s.in_flight ≡ s.tasks
    pub balanced : available_permits s.connection_limit + s.tasks ≡ cap

  pub started-IsCounted :
      (cap : ℕ) → cap ≤ sems.max_permits → IsCounted cap (started sems notifies cap)
  unfolding started
  started-IsCounted cap few = record {
    counted = refl;
    balanced = omega (arith, available-with_permits cap few);
  }

  module _ (cap : ℕ) (fits : cap < 2 ^ 64) where
    admit-IsCounted :
        (s : Server sems notifies) → IsCounted cap s → IsCounted cap (admit sems notifies s)
    unfolding admit
    admit-IsCounted s h = elim (Option-cases (try_acquire_owned s.connection_limit)) [
      | inl e ↦ rw (e, admit) h
      | inr (t, e) ↦
          rw (e, admit)
            (record {
              counted =
                  omega (arith, try_acquire_some s.connection_limit t e, h.counted, h.balanced);
              balanced = omega (arith, try_acquire_some s.connection_limit t e, h.balanced);
            })
    ]

    pub end_task-IsCounted :
        (tasks : ℕ) (s : Server sems notifies)
        → s.tasks ≡ tasks
        → IsCounted cap s
        → IsCounted cap (end_task sems notifies tasks s)
    unfolding end_task
    end_task-IsCounted zero s e h = h
    end_task-IsCounted (suc tasks) s e h = record {
      counted = omega (arith, h.counted, h.balanced);
      balanced = omega (arith, available-drop_permit s.connection_limit, h.balanced);
    }

    module _ {Addr : Type 0} (config : ServerConfig Addr) where
      pub step-IsCounted :
          (s : Server sems notifies) (e : Event)
          → IsCounted cap s
          → IsCounted cap (step sems notifies config s e)
      unfolding step accept_connection reject_ip
      step-IsCounted s (connection ip) h = ground (
        arith,
        admit-IsCounted (count_accepted sems notifies s)
            (record { counted = h.counted; balanced = h.balanced }),
      )
      step-IsCounted s accept_error h = h
      step-IsCounted s task_ends h = end_task-IsCounted s.tasks s refl h

      admit-tasks :
          (s : Server sems notifies)
          → IsCounted cap s
          → (admit sems notifies s).tasks ≡ (if ltb s.tasks cap then suc s.tasks else s.tasks)
      unfolding admit
      admit-tasks s h = elim (Option-cases (try_acquire_owned s.connection_limit)) [
        | inl e ↦ rw (e, admit) (ground (arith, try_acquire_none s.connection_limit e, h.balanced))
        | inr (t, e) ↦
            rw (e, admit) (ground (arith, try_acquire_some s.connection_limit t e, h.balanced))
      ]

      accept-tasks :
          (s : Server sems notifies) (ip : ℕ)
          → IsCounted cap s
          → (accept_connection sems notifies config ip s).tasks ≡ (
              if not (is_blocked config ip) && (is_allowed config ip && ltb s.tasks cap)
              then suc s.tasks
              else s.tasks)
      unfolding accept_connection reject_ip
      accept-tasks s ip h = ground (
        arith,
        admit-tasks (count_accepted sems notifies s)
            (record { counted = h.counted; balanced = h.balanced }),
      )

      pub run-IsCounted :
          (s : Server sems notifies) (es : List Event)
          → IsCounted cap s
          → IsCounted cap (run sems notifies config s es)
      unfolding run
      run-IsCounted s [] h = h
      run-IsCounted s (e ∷ es) h =
          run-IsCounted (step sems notifies config s e) es (step-IsCounted s e h)

      -- With a limit that fits usize and that a semaphore can have, after whatever events since the start: the in-flight counter
      -- is the number of connection tasks, that number is at most the limit, and a new connection
      -- gets a task exactly when its address is not blocked, is allowed, and the number is below
      -- the limit.
      pub run_capacity :
          cap ≤ sems.max_permits
          → (es : List Event) (ip : ℕ)
          → let s = run sems notifies config (started sems notifies cap) es in
            (s.in_flight ≡ s.tasks)
            × (s.tasks ≤ cap)
            × ((accept_connection sems notifies config ip s).tasks ≡ (
                if not (is_blocked config ip) && (is_allowed config ip && ltb s.tasks cap)
                then suc s.tasks
                else s.tasks))
      run_capacity few es ip =
          let h = run-IsCounted (started sems notifies cap) es (started-IsCounted cap few) in
          (h.counted, omega (arith, h.balanced), accept-tasks _ ip h)
