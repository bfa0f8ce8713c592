-- ===== src/Base/Float.antt =====
-- What the code uses of the standard library's `f64`: numbers up to the sign of zero. The laws are
-- those of IEEE 754, whose operations round monotonically and keep the numbers of a u32 as they are;
-- NaN satisfies no `<=`.
use multithreaded.Base.{ℕ, suc, ◌<◌, ◌≤◌, ◌≡◌, ◌^◌, Bool, true}

pub record F64Lib : Type 1 where
  pub F64 : Type 0
  -- `f64::from` on u32, and `as_secs_f64` on nanoseconds.
  pub from_u32 : ℕ → F64
  pub as_secs_f64 : ℕ → F64
  pub add : F64 → F64 → F64
  pub sub : F64 → F64 → F64
  pub mul : F64 → F64 → F64
  pub min : F64 → F64 → F64
  pub le : F64 → F64 → Bool
  pub le_trans : (a b c : F64) → le a b ≡ true → le b c ≡ true → le a c ≡ true
  pub le-from_u32 : (m n : ℕ) → m ≤ n → n < 2 ^ 32 → le (from_u32 m) (from_u32 n) ≡ true
  pub le-add_left :
      (a b : F64) → le (from_u32 0) a ≡ true → le (from_u32 0) b ≡ true → le a (add a b) ≡ true
  pub le-add_right :
      (a b : F64) → le (from_u32 0) a ≡ true → le (from_u32 0) b ≡ true → le b (add a b) ≡ true
  pub mul_nonnegative :
      (elapsed rate : ℕ)
      → rate < 2 ^ 32
      → le (from_u32 0) (mul (as_secs_f64 elapsed) (from_u32 rate)) ≡ true
  pub mul_second :
      (elapsed rate : ℕ)
      → rate < 2 ^ 32
      → 1_000_000_000 ≤ elapsed
      → le (from_u32 rate) (mul (as_secs_f64 elapsed) (from_u32 rate)) ≡ true
  pub min_right : (a b : F64) → le b a ≡ true → min a b ≡ b
  pub min-le_right : (a b : F64) → le b b ≡ true → le (min a b) b ≡ true
  pub le-min : (a b c : F64) → le c a ≡ true → le c b ≡ true → le c (min a b) ≡ true
  pub sub-le : (a : F64) → le (from_u32 1) a ≡ true → le (sub a (from_u32 1)) a ≡ true
  pub le-sub :
      (n : ℕ) (a : F64)
      → suc n < 2 ^ 32
      → le (from_u32 (suc n)) a ≡ true
      → le (from_u32 n) (sub a (from_u32 1)) ≡ true
