-- ===== src/Base/Int.antt =====
-- Signed integers, and the 64-bit range of Go's `int`.
use Prim.Native.Nat.{ℕ, zero, suc, ◌<◌}
use mathlib.Core.Bool.{Bool, true, false}

-- `negsuc n` is -(n + 1).
pub data ℤ : Type 0 where
  pos : ℕ → ℤ
  negsuc : ℕ → ℤ

-- 2 ^ 63 and 2 ^ 64.
abbrev pub int64_limit : ℕ
int64_limit = 9_223_372_036_854_775_808

abbrev pub uint64_limit : ℕ
uint64_limit = 18_446_744_073_709_551_616

-- A value of type `int`.
abbrev pub IsInt64 : ℤ → Type 0
IsInt64 (pos n) = n < int64_limit
IsInt64 (negsuc n) = n < int64_limit

-- `-n` if the sign is a minus.
abbrev pub signed : Bool → ℕ → ℤ
signed false n = pos n
signed true zero = pos 0
signed true (suc n) = negsuc n
