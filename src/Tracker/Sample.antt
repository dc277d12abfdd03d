-- ===== src/Tracker/Sample.antt =====
-- A system of tasks for concrete inputs: each has its structure and its stack where no other has, and
-- a structure lies at the pid and one.
use pmu_min_suite.Prelude.{ℕ, ◌+◌, ◌*◌, ◌^◌, ◌≡◌, arith}
use pmu_min_suite.Tracker.Task.{Task}
use pmu_min_suite.Tracker.Wrappers.Trace.{World}

abbrev pub task : ℕ → Task
task pid = record { addr = pid + 1; pid = pid; stack = 2 ^ 20 * (pid + 1) }

pub same_task :
    (t u : Task)
    → (t.addr ≡ t.pid + 1) × (t.stack ≡ 2 ^ 20 * (t.pid + 1))
    → (u.addr ≡ u.pid + 1) × (u.stack ≡ 2 ^ 20 * (u.pid + 1))
    → t.pid ≡ u.pid
    → t ≡ u
same_task t u h k e = ground arith

abbrev pub world : World
world = record {
  Has = λ t. (t.addr ≡ t.pid + 1) × (t.stack ≡ 2 ^ 20 * (t.pid + 1));
  live = λ t h. omega arith;
  apart = λ t u h k e. omega arith;
  same = same_task;
}
