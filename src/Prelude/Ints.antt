-- ===== src/Prelude/Ints.antt =====
-- Signed integers, and the casts of Rust that the code makes of them.
use Prim.Native.Nat.{ℕ, zero, suc, ◌-◌, ◌%◌, ◌^◌}

-- pos n is n, negsuc n is - n - 1.
pub data ℤ : Type 0 where
  pos negsuc : ℕ → ℤ

-- `v as u32`
abbrev pub as_u32 : ℤ → ℕ
as_u32 (pos n) = n % 2 ^ 32
as_u32 (negsuc n) = 2 ^ 32 - 1 - n % 2 ^ 32

-- `v.max(1)` of an i64
abbrev pub at_least_one : ℤ → ℤ
at_least_one (pos zero) = pos 1
at_least_one (pos (suc n)) = pos (suc n)
at_least_one (negsuc n) = pos 1

-- `v.max(1)` of a u32
abbrev pub max_one : ℕ → ℕ
max_one zero = 1
max_one (suc n) = suc n
