-- ===== src/Server/Program/Rely.antt =====
-- What a program keeps and gives, if the others keep it too.
use multithreaded.Server.Program.{Program, done, step, ◌>>=◌}

module _ {S : Type 0} (I : S → Type 0) where
  -- On states with `I` every step leaves one with `I`, and the program ends with a result of `Q`.
  unfoldable pub Yields : {A : Type 0} → (A → Type 0) → Program S A → Type 0
  Yields Q (done a) = Q a
  Yields Q (step f next) = (s : S) → I s → I (f s) × Yields Q (next s)

  pub done-Yields : {A : Type 0} (Q : A → Type 0) (a : A) → Q a → Yields Q (done a)
  unfolding Yields
  done-Yields Q a h = h

  pub Yields->>= :
      {A B : Type 0} (Q : A → Type 0) (R : B → Type 0) (m : Program S A) (k : A → Program S B)
      → Yields Q m
      → ((a : A) → Q a → Yields R (k a))
      → Yields R (m >>= k)
  unfolding Yields
  Yields->>= Q R (done a) k h hk = hk a h
  Yields->>= Q R (step f next) k h hk =
      λ s i. let (kept, rest) = h s i in (kept, Yields->>= Q R (next s) k rest hk)
