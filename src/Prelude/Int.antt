-- ===== src/Prelude/Int.antt =====
-- The `int` results of the kernel's functions: 0 or a count, and negated error numbers.
use Prim.Native.Nat.{ℕ, zero, suc}
use mathlib.Core.Bool.{Bool, true, false}

-- `negsuc n` is -(n + 1).
pub data ℤ : Type 0 where
  pos : ℕ → ℤ
  negsuc : ℕ → ℤ

-- `if (err)`
abbrev pub is_err : ℤ → Bool
is_err (pos zero) = false
is_err (pos (suc n)) = true
is_err (negsuc n) = true

abbrev pub enxio : ℤ
enxio = negsuc 5

abbrev pub enomem : ℤ
enomem = negsuc 11

abbrev pub enodev : ℤ
enodev = negsuc 18

abbrev pub einval : ℤ
einval = negsuc 21
