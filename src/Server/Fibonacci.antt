-- ===== src/Server/Fibonacci.antt =====
-- src/server/connection.rs: `fib` and its route's cap.
use multithreaded.Base.{ℕ, zero, suc, ◌+◌, ◌%◌, ◌^◌, ◌≤◌, ◌<◌, ◌≡◌, arith, ◌∙◌, ap}
use Prim.Native.Nat.{min}
use native.Mathlib.Nat.{pow-suc, pow-le-pow_right}

-- The loop from `(a, b)` for `n` rounds, with `wrapping_add` on u64.
fib_loop : ℕ → ℕ → ℕ → ℕ
fib_loop zero a b = a
fib_loop (suc n) a b = fib_loop n b ((a + b) % 2 ^ 64)

unfoldable pub fib : ℕ → ℕ
unfolding fib_loop
fib n = fib_loop n 0 1

-- The argument of the route: the parsed parameter or 10, capped.
abbrev pub capped : ℕ → ℕ
capped n = min n 50

-- The Fibonacci numbers.
abbrev pub fibonacci : ℕ → ℕ
fibonacci zero = 0
fibonacci (suc zero) = 1
fibonacci (suc (suc n)) = fibonacci n + fibonacci (suc n)

fib_loop-fibonacci :
    (n k : ℕ)
    → fib_loop n (fibonacci k % 2 ^ 64) (fibonacci (suc k) % 2 ^ 64) ≡ fibonacci (n + k) % 2 ^ 64
unfolding fib_loop
fib_loop-fibonacci zero k = ap (λ (m : ℕ). fibonacci m % 2 ^ 64) (omega arith)
fib_loop-fibonacci (suc n) k =
    ap (fib_loop n (fibonacci (suc k) % 2 ^ 64)) (omega arith)
    ∙ fib_loop-fibonacci n (suc k)
    ∙ ap (λ (m : ℕ). fibonacci m % 2 ^ 64) (omega arith)

-- `fib` computes the Fibonacci numbers modulo 2⁶⁴.
pub fib-fibonacci : (n : ℕ) → fib n ≡ fibonacci n % 2 ^ 64
unfolding fib
fib-fibonacci n = fib_loop-fibonacci n 0 ∙ ap (λ (m : ℕ). fibonacci m % 2 ^ 64) (omega arith)

fibonacci-le : (n : ℕ) → (fibonacci n ≤ 2 ^ n) × (fibonacci (suc n) ≤ 2 ^ n)
fibonacci-le zero = omega arith
fibonacci-le (suc n) = let (h, k) = fibonacci-le n in omega (arith, pow-suc 2 n)

fibonacci_small : (n : ℕ) → n ≤ 50 → fibonacci n < 2 ^ 64
fibonacci_small n h =
    let grows : 2 ^ n ≤ 2 ^ 50 = pow-le-pow_right (omega arith) h in
    omega (arith, (fibonacci-le n).0)

-- The route never wraps: whatever number it is asked for, it answers the Fibonacci number at that
-- number or at the cap.
pub fib-capped : (n : ℕ) → fib (capped n) ≡ fibonacci (capped n)
fib-capped n =
    let small = fibonacci_small (capped n) (omega arith) in omega (arith, fib-fibonacci (capped n))
