-- ===== src/Prelude/Int.antt =====
-- Signed integers over the native numbers, and the wrap-around of int64.
use azure_service_bus_go.Prelude.Tests.{ltb, if◌then◌else◌}
use Prim.Native.Nat.{ℕ, zero, suc, ◌+◌, ◌≤◌, ◌<◌}
use mathlib.Core.Bool.{Bool}
use native.Mathlib.Omega.{arith}

-- `negsuc n` is -(n + 1).
pub data ℤ : Type 0 where
  pos : ℕ → ℤ
  negsuc : ℕ → ℤ

abbrev pub pos_part : ℤ → ℕ
pos_part (pos n) = n
pos_part (negsuc n) = 0

abbrev pub neg_part : ℤ → ℕ
neg_part (pos n) = 0
neg_part (negsuc n) = suc n

infix 50 ◌≤ℤ◌
abbrev pub ◌≤ℤ◌ : ℤ → ℤ → Type 0
a ≤ℤ b = pos_part a + neg_part b ≤ pos_part b + neg_part a

infix 50 ◌<ℤ◌
abbrev pub ◌<ℤ◌ : ℤ → ℤ → Type 0
a <ℤ b = pos_part a + neg_part b < pos_part b + neg_part a

abbrev pub ltb_ℤ : ℤ → ℤ → Bool
ltb_ℤ a b = ltb (pos_part a + neg_part b) (pos_part b + neg_part a)

-- 2 ^ 63 - 1 and -(2 ^ 63)
abbrev pub max_int64 : ℕ
max_int64 = 9223372036854775807

-- `n + 1` on int64: the largest value wraps to the smallest.
abbrev pub suc_int64 : ℤ → ℤ
suc_int64 (pos n) = if ltb n max_int64 then pos (n + 1) else negsuc max_int64
suc_int64 (negsuc zero) = pos 0
suc_int64 (negsuc (suc n)) = negsuc n

-- Below the largest value, `n + 1` is greater than `n`.
pub lt-suc_int64 : (a : ℤ) → pos_part a < max_int64 → a <ℤ suc_int64 a
lt-suc_int64 (pos n) h = ground arith
lt-suc_int64 (negsuc zero) h = omega arith
lt-suc_int64 (negsuc (suc n)) h = omega arith
