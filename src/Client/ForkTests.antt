-- ===== src/Client/ForkTests.antt =====
-- A fork and an exit with the callbacks of the client, over the stack tracker and the circular array.
use pmu_min_suite.Prelude.{ℕ, ◌≡◌, refl, ◌∙◌, true, none, some, inl, arith}
use pmu_min_suite.Clist.Instances.{carray_clist}
use pmu_min_suite.Tracker.Task.{Task}
use pmu_min_suite.Tracker.Contract.{Apart}
use pmu_min_suite.Tracker.Stack
use pmu_min_suite.Tracker.Stack.Laws.{query-add}
use pmu_min_suite.Tracker.Stack.Map.{stack_tracker}
use pmu_min_suite.Client.Attach.{Memory}
use pmu_min_suite.Client.Attach.Forks.{fork_and_exit, fork_and_exit-restores}
use pmu_min_suite.Client.Tests.{proc_data}
use pmu_min_suite.Tracker.Sample.{task}
use pmu_min_suite.Client.BufferTests.{kvmalloc, empty, blank_absent}

-- The stacks after task 3 was tracked.
abbrev tracking : Stack.Memory
tracking = (Stack.tracker_add (λ a. 0) (task 3) 4096).0

child_absent : stack_tracker.lookup tracking (task 5) ≡ none
child_absent =
    stack_tracker.lookup-add_other true (λ a. 0) (task 3) (task 5) 4096 tt (omega arith)
    ∙ blank_absent

fork_and_exit-restores_example :
    (s' : Stack.Memory) × (m' : Memory carray_clist) × (fork_and_exit carray_clist stack_tracker
        (some (8192, proc_data))
        kvmalloc
        4096
        (tracking, some empty)
        (task 3)
        (task 5)
      ≡ (s', some m'))
    × (stack_tracker.lookup s' (task 5) ≡ none)
    × ((u : Task) → Apart (task 5) u → stack_tracker.lookup s' u ≡ stack_tracker.lookup tracking u)
    × ((a : ℕ) → m'.clists a ≡ none)
    × ((p : ℕ) → m'.procs p ≡ none)
fork_and_exit-restores_example =
    fork_and_exit-restores carray_clist stack_tracker kvmalloc 4096 8192 proc_data tracking empty
      (task 3) (task 5) tt (query-add (λ a. 0) (task 3) 4096 (omega arith) (inl (omega arith))).0
      (omega arith) (inl (omega arith)) (omega arith) (omega arith) child_absent refl refl
