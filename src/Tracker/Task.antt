-- ===== src/Tracker/Task.antt =====
-- The part of the kernel's `struct task_struct` that the trackers read.
use pmu_min_suite.Prelude.{ℕ}

-- `addr` is the address of the structure, 0 for a NULL pointer; `stack` is what
-- `task_stack_page` returns for it, 0 for a task that has no stack.
pub record Task : Type 0 where
  pub addr : ℕ
  pub pid : ℕ
  pub stack : ℕ
