-- ===== src/Server/Program.antt =====
-- A future of src/server/connection.rs as its steps on what it shares with other futures: between
-- two of them the others may run.
pub mod Laws
pub mod Rely
use multithreaded.Base.{◌≡◌, refl, ℕ, zero, suc}

-- A step on a state `s` leaves one, and goes on with what it has read of `s`.
pub data Program (S A : Type 0) : Type 0 where
  done : A → Program S A
  step : (S → S) → (S → Program S A) → Program S A

infixl 5 ◌>>=◌
abbrev pub ◌>>=◌ : {S A B : Type 0} → Program S A → (A → Program S B) → Program S B
done a >>= k = k a
step f next >>= k = step f (λ s. next s >>= k)

-- One statement.
abbrev pub statement : {S A : Type 0} → (S → A × S) → Program S A
statement op = step (λ s. (op s).1) (λ s. done (op s).0)

-- The future with nothing in between.
unfoldable pub run : {S A : Type 0} → Program S A → S → A × S
run (done a) s = (a, s)
run (step f next) s = run (next s) (f s)
