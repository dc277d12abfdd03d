-- ===== src/Prelude/Machine.antt =====
-- Sizes and conversions of the machine that the modules are built for, x86-64.
use Prim.Native.Nat.{ℕ, ◌+◌, ◌-◌, ◌^◌}
use pmu_min_suite.Prelude.Tests.{ltb, if◌then◌else◌}

abbrev pub page_size : ℕ
page_size = 4096

-- `size_t` values have 64 bits; a negative `int` keeps its value in the conversion.
abbrev pub size_of_int : ℕ → ℕ
size_of_int i = if ltb i (2 ^ 31) then i else i + 2 ^ 64 - 2 ^ 32
