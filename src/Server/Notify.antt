-- ===== src/Server/Notify.antt =====
-- tokio's `Notify` as the accept loop relies on it.
use multithreaded.Base.{◌≡◌, refl, Bool, true, false}

-- `notify_one` stores a permit, or completes the waiting `notified()`; at most one permit is kept.
-- A poll of `notified()` is ready exactly when there is a permit, and takes it.
pub record NotifyLib : Type 1 where
  pub Notify : Type 0
  pub fresh : Notify
  pub has_permit : Notify → Bool
  pub notify_one : Notify → Notify
  pub poll_notified : Notify → Bool × Notify
  pub has_permit-fresh : has_permit fresh ≡ false
  pub has_permit-notify_one : (n : Notify) → has_permit (notify_one n) ≡ true
  pub poll_notified-ready : (n : Notify) → (poll_notified n).0 ≡ has_permit n
  pub has_permit-poll_notified : (n : Notify) → has_permit (poll_notified n).1 ≡ false

-- A flag meets these.
abbrev pub flag : NotifyLib
flag = record {
  Notify = Bool;
  fresh = false;
  has_permit = λ n. n;
  notify_one = λ n. true;
  poll_notified = λ n. (n, false);
  has_permit-fresh = refl;
  has_permit-notify_one = λ n. refl;
  poll_notified-ready = λ n. refl;
  has_permit-poll_notified = λ n. refl;
}
