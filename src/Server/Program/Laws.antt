-- ===== src/Server/Program/Laws.antt =====
-- What is said of programs, and how it is shown of a program with `do`.
use multithreaded.Base.{◌≡◌, refl, ◌∙◌, ap, ℕ, zero, suc, ◌+◌, ◌≤◌, arith, ◌⊎◌, inl, inr}
use multithreaded.Server.Program.{Program, done, step, ◌>>=◌, run}

module _ {S : Type 0} where
  -- The second program goes on where the first ends.
  pub run->>= :
      {A B : Type 0} (m : Program S A) (k : A → Program S B) (s : S)
      → run (m >>= k) s ≡ (let (a, s') = run m s in run (k a) s')
  unfolding run
  run->>= (done a) k s = refl
  run->>= (step f next) k s = run->>= (next s) k (f s)

  pub run-then :
      {A B : Type 0} (m : Program S A) (k : A → Program S B) (s : S) (r : A × S)
      → run m s ≡ r
      → run (m >>= k) s ≡ run (k r.0) r.1
  run-then {A} m k s r e = run->>= m k s ∙ ap (λ (q : A × S). run (k q.0) q.1) e

  -- Every step, on any state, is one of `T`.
  unfoldable pub Always : {A : Type 0} → (S → S → Type 0) → Program S A → Type 0
  Always T (done a) = Unit
  Always T (step f next) = (s : S) → T s (f s) × Always T (next s)

  pub done-Always : {A : Type 0} (T : S → S → Type 0) (a : A) → Always T (done a)
  unfolding Always
  done-Always T a = tt

  pub Always->>= :
      {A B : Type 0} (T : S → S → Type 0) (m : Program S A) (k : A → Program S B)
      → Always T m
      → ((a : A) → Always T (k a))
      → Always T (m >>= k)
  unfolding Always
  Always->>= T (done a) k h hk = hk a
  Always->>= T (step f next) k h hk =
      λ s. let (t, rest) = h s in (t, Always->>= T (next s) k rest hk)

  pub Always-map :
      {A : Type 0} (T U : S → S → Type 0) (m : Program S A)
      → ((s s' : S) → T s s' → U s s')
      → Always T m
      → Always U m
  unfolding Always
  Always-map T U (done a) h hs = tt
  Always-map T U (step f next) h hs =
      λ s. let (t, rest) = hs s in (h s (f s) t, Always-map T U (next s) h rest)

  -- The program ends after at most `n` steps, whatever the others do.
  unfoldable pub Within : {A : Type 0} → ℕ → Program S A → Type 0
  Within n (done a) = Unit
  Within zero (step f next) = ⊥
  Within (suc n) (step f next) = (s : S) → Within n (next s)

  pub Within-≤ : {A : Type 0} (n k : ℕ) (m : Program S A) → Within n m → n ≤ k → Within k m
  unfolding Within
  Within-≤ n k (done a) h le = tt
  Within-≤ zero k (step f next) h le = elim h [ ]
  Within-≤ (suc n) zero (step f next) h le = absurd (omega arith)
  Within-≤ (suc n) (suc k) (step f next) h le = λ s. Within-≤ n k (next s) (h s) (omega arith)

  pub Within->>= :
      {A B : Type 0} (n k : ℕ) (m : Program S A) (rest : A → Program S B)
      → Within n m
      → ((a : A) → Within k (rest a))
      → Within (n + k) (m >>= rest)
  unfolding Within
  Within->>= n k (done a) rest h hk = Within-≤ k (n + k) (rest a) (hk a) (omega arith)
  Within->>= zero k (step f next) rest h hk = elim h [ ]
  Within->>= (suc n) k (step f next) rest h hk =
      Within-≤ (suc (n + k)) (suc n + k) (step f next >>= rest)
        (λ s. Within->>= n k (next s) rest (h s) hk) (omega arith)

  -- Every step is one of `T`, up to one on a state with `P`: what follows it is not said.
  unfoldable pub Until : {A : Type 0} → (S → Type 0) → (S → S → Type 0) → Program S A → Type 0
  Until P T (done a) = Unit
  Until P T (step f next) = (s : S) → P s ⊎ (T s (f s) × Until P T (next s))

  pub done-Until : {A : Type 0} (P : S → Type 0) (T : S → S → Type 0) (a : A) → Until P T (done a)
  unfolding Until
  done-Until P T a = tt

  pub Until-map :
      {A : Type 0} (P Q : S → Type 0) (T : S → S → Type 0) (m : Program S A)
      → ((s : S) → P s → Q s)
      → Until P T m
      → Until Q T m
  unfolding Until
  Until-map P Q T (done a) h hs = tt
  Until-map P Q T (step f next) h hs = λ s. elim (hs s) [
    | inl now ↦ inl (h s now)
    | inr (t, rest) ↦ inr (t, Until-map P Q T (next s) h rest)
  ]

  pub Always-Until :
      {A : Type 0} (P : S → Type 0) (T : S → S → Type 0) (m : Program S A)
      → Always T m
      → Until P T m
  unfolding Always Until
  Always-Until P T (done a) h = tt
  Always-Until P T (step f next) h =
      λ s. let (t, rest) = h s in inr (t, Always-Until P T (next s) rest)

pub done-Within : (S : Type 0) {A : Type 0} (n : ℕ) (a : A) → Within {S = S} n (done a)
unfolding Within
done-Within S n a = tt
