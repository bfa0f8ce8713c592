-- ===== src/Server/Drain/Stale.antt =====
-- A permit of `all_drained` that was stored while the server was still accepting.
use multithreaded.Base.{
  ◌≤◌, ℕ, zero, suc, ◌+◌, ◌-◌, ◌^◌, ◌<◌, ◌≡◌, refl, sym, ◌∙◌, true, List, [], ◌∷◌, arith,
  Option-cases, inl, inr,
}
use multithreaded.Config.{ServerConfig}
use multithreaded.Middleware.Semaphore.{SemaphoreLib}
use multithreaded.Server.Notify.{NotifyLib}
use multithreaded.Server.Accept.{
  Server, Event, connection, accept_error, task_ends, started, admit, reject_ip, count_accepted,
  accept_connection, step, run,
}
use multithreaded.Server.Accept.Capacity.{
  IsCounted, run-IsCounted, started-IsCounted, step-IsCounted,
}
use multithreaded.Server.Drain.{drained, ends, wait, drain}
use multithreaded.Server.Drain.Permit.{
  ends-IsCounted, ends-tasks, ends-keeps, end_task-keeps, end_task-last,
}

module _ (sems : SemaphoreLib) (notifies : NotifyLib) where
  open notifies use {has_permit, poll_notified, poll_notified-ready}
  open sems use {try_acquire_owned}

  admit-keeps :
      (s : Server sems notifies)
      → has_permit s.all_drained ≡ true
      → has_permit (admit sems notifies s).all_drained ≡ true
  unfolding admit
  admit-keeps s h = elim (Option-cases (try_acquire_owned s.connection_limit)) [
    | inl e ↦ rw (e, admit) h
    | inr (t, e) ↦ rw (e, admit) h
  ]

  -- A wait that finds a permit returns at once.
  wait_ready :
      (k : ℕ) (s : Server sems notifies)
      → has_permit s.all_drained ≡ true
      → ((wait sems notifies k s).0 ≡ drained) × ((wait sems notifies k s).1.tasks ≡ s.tasks)
  unfolding wait
  wait_ready zero s h = rw (poll_notified-ready s.all_drained ∙ h, wait) (refl, refl)
  wait_ready (suc k) s h = rw (poll_notified-ready s.all_drained ∙ h, wait) (refl, refl)

  module _ (cap : ℕ) (fits : cap < 2 ^ 64) where
    drain_stale :
        (settling more k : ℕ) (s : Server sems notifies)
        → IsCounted sems notifies cap s
        → has_permit s.all_drained ≡ true
        → settling + more < s.tasks
        → ((drain sems notifies settling more k s).0 ≡ drained)
          × ((drain sems notifies settling more k s).1.tasks ≡ s.tasks - (settling + more))
    unfolding drain
    drain_stale settling more k s c p h =
        let s₁ = ends sems notifies settling s in
        let s₂ = ends sems notifies more s₁ in
        let c₁ = ends-IsCounted sems notifies cap fits settling s c in
        let c₂ = ends-IsCounted sems notifies cap fits more s₁ c₁ in
        let p₂ = ends-keeps sems notifies more s₁ (ends-keeps sems notifies settling s p) in
        ground (
          arith,
          wait_ready k s₂ p₂,
          c₁.counted,
          c₂.counted,
          ends-tasks sems notifies settling s,
          ends-tasks sems notifies more s₁,
        )

    module _ {Addr : Type 0} (config : ServerConfig Addr) where
      step-keeps :
          (s : Server sems notifies) (e : Event)
          → has_permit s.all_drained ≡ true
          → has_permit (step sems notifies config s e).all_drained ≡ true
      unfolding step accept_connection reject_ip
      step-keeps s (connection ip) h =
          ground (arith, admit-keeps (count_accepted sems notifies s) h)
      step-keeps s accept_error h = h
      step-keeps s task_ends h = end_task-keeps sems notifies s.tasks s h

      run-keeps :
          (s : Server sems notifies) (es : List Event)
          → has_permit s.all_drained ≡ true
          → has_permit (run sems notifies config s es).all_drained ≡ true
      unfolding run
      run-keeps s [] h = h
      run-keeps s (e ∷ es) h = run-keeps (step sems notifies config s e) es (step-keeps s e h)

      -- With a limit that fits usize and that a semaphore can have: once the in-flight counter has been 1 when a task ended, the
      -- drain of a later shutdown reports that all connections are drained, however many tasks are
      -- left after the settle window and the two loads of the counter.
      pub early_exit :
          cap ≤ sems.max_permits
          → (before after : List Event) (settling more k : ℕ)
          → let s₀ = run sems notifies config (started sems notifies cap) before in
            let s = run sems notifies config (step sems notifies config s₀ task_ends) after in
            s₀.in_flight ≡ 1
            → settling + more < s.tasks
            → ((drain sems notifies settling more k s).0 ≡ drained)
              × ((drain sems notifies settling more k s).1.tasks ≡ s.tasks - (settling + more))
      unfolding step
      early_exit few before after settling more k one h =
          let s₀ = run sems notifies config (started sems notifies cap) before in
          let c₀ =
            run-IsCounted sems notifies cap fits config (started sems notifies cap) before
              (started-IsCounted sems notifies cap few) in
          let ended = step sems notifies config s₀ task_ends in
          drain_stale settling more k _
            (run-IsCounted sems notifies cap fits config ended after
              (step-IsCounted sems notifies cap fits config s₀ task_ends c₀))
            (run-keeps ended after (end_task-last sems notifies s₀ one (sym c₀.counted ∙ one))) h
