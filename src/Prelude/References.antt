-- ===== src/Prelude/References.antt =====
-- The references that the kernel counts on pids and on task structures, each by its address.
use pmu_min_suite.Prelude.{ℕ, ◌+◌, ◌-◌}
use pmu_min_suite.Prelude.Family.{update}

pub record Refs : Type 0 where
  pub pids : ℕ → ℕ
  pub tasks : ℕ → ℕ

abbrev pub get : (ℕ → ℕ) → ℕ → ℕ → ℕ
get counts a = update counts a (counts a + 1)

abbrev pub put : (ℕ → ℕ) → ℕ → ℕ → ℕ
put counts a = update counts a (counts a - 1)
