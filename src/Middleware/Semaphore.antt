-- ===== src/Middleware/Semaphore.antt =====
-- tokio's `Semaphore` as the program relies on it.
use multithreaded.Base.{ℕ, suc, ◌^◌, ◌-◌, ◌≤◌, ◌≡◌, Option, none, some, arith, refl}

-- A semaphore has at most `max_permits`: `Semaphore::new` panics above. `try_acquire_owned` fails exactly when no permit is left; dropping a permit gives it back.
pub record SemaphoreLib : Type 1 where
  pub Semaphore : Type 0
  pub max_permits : ℕ
  pub with_permits : ℕ → Semaphore
  pub available_permits : Semaphore → ℕ
  pub try_acquire_owned : Semaphore → Option Semaphore
  pub drop_permit : Semaphore → Semaphore
  pub available-with_permits : (n : ℕ) → n ≤ max_permits → available_permits (with_permits n) ≡ n
  pub try_acquire_none : (s : Semaphore) → try_acquire_owned s ≡ none → available_permits s ≡ 0
  pub try_acquire_some :
      (s t : Semaphore)
      → try_acquire_owned s ≡ some t
      → available_permits s ≡ suc (available_permits t)
  pub available-drop_permit :
      (s : Semaphore) → available_permits (drop_permit s) ≡ suc (available_permits s)

-- A counter meets these.
abbrev pub take_permit : ℕ → Option ℕ
take_permit ℕ.zero = none
take_permit (suc n) = some n

pub take_permit-none : (s : ℕ) → take_permit s ≡ none → s ≡ 0
take_permit-none s h = ground arith

pub take_permit-some : (s t : ℕ) → take_permit s ≡ some t → s ≡ suc t
take_permit-some s t h = ground arith

unfoldable pub counting : SemaphoreLib
counting = record {
  Semaphore = ℕ;
  max_permits = 2 ^ 61 - 1;
  with_permits = λ n. n;
  available_permits = λ s. s;
  try_acquire_owned = take_permit;
  drop_permit = suc;
  available-with_permits = λ n h. refl;
  try_acquire_none = take_permit-none;
  try_acquire_some = take_permit-some;
  available-drop_permit = λ s. refl;
}
