-- ===== src/Tracker/Tests.antt =====
-- The theorems on the trackers at concrete inputs, and runs of the definitions.
use pmu_min_suite.Prelude.{
  ℕ, ◌+◌, ◌-◌, ◌%◌, ◌^◌, ◌<◌, ◌≡◌, ◌≢◌, refl, inl, inr, Bool, true, false, ◌==◌, List, [], ◌∷◌,
  arith,
}
use pmu_min_suite.Prelude.Family.{update}
use pmu_min_suite.Tracker.Task.{Task}
use pmu_min_suite.Tracker.Sample.{task, world}
use pmu_min_suite.Tracker.Stack
use pmu_min_suite.Tracker.Stack.Laws.{query-add}
use pmu_min_suite.Tracker.Hash.{HashTracker}
use pmu_min_suite.Tracker.Hash.Stacks.{Op, add, del, query, query_data}
use pmu_min_suite.Tracker.Perf
use pmu_min_suite.Tracker.Perf.{PerfTracker, PerfEvent}
use pmu_min_suite.Tracker.Perf.Map.{perf_tracker}
use pmu_min_suite.Tracker.Wrappers.{Event, switch, fork, exit}
use pmu_min_suite.Tracker.Wrappers.Trace.{
  OccurAll, inherit, Tracks, handle_all, inherit_all, query-handle_all,
}

abbrev blank : Stack.Memory
blank a = 0

abbrev pointer : ℕ
pointer = 2 ^ 64 - 2 ^ 40

task-IsLive : ((task 5).addr ≢ 0) × ((task 5).stack ≢ 0)
task-IsLive = omega arith

query-add_example :
    (Stack.query_tracker (Stack.tracker_add blank (task 5) pointer).0 (task 5) ≡ true)
    × (Stack.query_data_tracker (Stack.tracker_add blank (task 5) pointer).0 (task 5) ≡ pointer)
query-add_example = query-add blank (task 5) pointer (omega arith) (inr (omega arith))

abbrev bare : Task
bare = record { addr = 16; pid = 3; stack = 0 }

abbrev bucket : ℕ → ℕ
bucket id = id % 256

abbrev empty : HashTracker
empty = record { tracked_map = λ b. []; tracked_count = 0; lock = false }

abbrev ops : List Op
ops =
    add true (task 5) 40
    ∷ add true (task 261) 41
    ∷ add true (task 5) 42
    ∷ del (task 5)
    ∷ query_data (task 5)
    ∷ add false (task 7) 43
    ∷ query (task 7)
    ∷ []

bucket-lt : (id : ℕ) → bucket id < 256
bucket-lt id = omega arith

-- The task of pid 1 is tracked.
abbrev first : PerfTracker
first = record {
  perf_event_list = update (λ a. []) 2 (record { pmu_private = 4096 } ∷ []);
  removing_event = false;
}

abbrev attach : ℕ → ℕ × ℕ
attach c = (c + 1, 8192)

abbrev detach : ℕ → ℕ → ℕ
detach d c = c

abbrev only_one : ℕ → Bool
only_one id = id == 1

first-Tracks : Tracks perf_tracker attach detach (λ c. inl (omega arith)) world first only_one
first-Tracks = record {
  ready = record { settled = refl; single = λ a. ground arith };
  agree = λ t h. ground arith;
}

abbrev events : List Event
events =
    fork true (task 1) (task 2)
    ∷ fork true (task 4) (task 5)
    ∷ switch (task 2) (task 1)
    ∷ exit (task 1)
    ∷ []

events_occur : OccurAll world only_one events
unfolding inherit
events_occur = (
  ((refl, refl), (refl, refl), refl, refl),
  (((refl, refl), (refl, refl), refl, refl), (((refl, refl), (refl, refl)), ((refl, refl), tt))),
)

query-handle_all_example :
    Perf.query_tracker
      (handle_all perf_tracker attach detach (λ c. inl (omega arith)) world (first, 0) events).0
      (task 2)
    ≡ inherit_all only_one events 2
query-handle_all_example =
    query-handle_all perf_tracker attach detach (λ c. inl (omega arith)) world events first 0
      only_one first-Tracks events_occur (task 2) (refl, refl)
