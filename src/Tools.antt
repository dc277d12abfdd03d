-- ===== src/Tools.antt =====
-- The programs of tools/ that measure the reading of the buffer. The calls of the C library and of
-- the kernel are arguments; a sum of type `int64_t` is the bit pattern of 64 bits that is printed.
pub mod Mmapr
pub mod Stdio
pub mod Mreader
pub mod Reader
pub mod Wrapper
mod Tests
mod WrapperTests
use pmu_min_suite.Prelude.{ℕ, ◌+◌, ◌-◌, ◌%◌, ◌^◌, if◌then◌else◌, ltb, ℤ}

-- What a program does that runs for some time: it is still in a loop, it has no defined behaviour, it
-- returns a code, or it prints a sum and returns 0.
pub data Outcome : Type 0 where
  spinning : Outcome
  undefined : Outcome
  returned : ℤ → Outcome
  printed : ℕ → Outcome

-- A `char` as it is added to an `int64_t`.
abbrev pub char_value : ℕ → ℕ
char_value b = if ltb b 128 then b else b + 2 ^ 64 - 256

abbrev pub add_64 : ℕ → ℕ → ℕ
add_64 a b = (a + b) % 2 ^ 64
