-- ===== src/Hook/DispatchTests.antt =====
-- Events at the tracepoints over the tracker of ptracker_perf.c on concrete inputs.
use pmu_min_suite.Prelude.{
  ℕ, ◌+◌, ◌-◌, ◌≡◌, refl, arith, Bool, true, false, some, List, [], ◌∷◌, pos, inl, ◌==◌,
}
use pmu_min_suite.Prelude.Family.{update}
use pmu_min_suite.Tracker.Task.{Task}
use pmu_min_suite.Tracker.Sample.{task, world}
use pmu_min_suite.Tracker.Perf.{PerfTracker}
use pmu_min_suite.Tracker.Perf.Map.{perf_tracker}
use pmu_min_suite.Tracker.Wrappers.Trace.{Tracks, OccurAll, inherit, inherit_all}
use pmu_min_suite.Hook.{loaded}
use pmu_min_suite.Hook.Handlers.{Args}
use pmu_min_suite.Hook.Tracep.{Module, switch_hook_module_exit}
use pmu_min_suite.Hook.Dispatch.{Addresses, Traced, switch, fork, exit, tracker_init, tracker_fini}
use pmu_min_suite.Hook.Dispatch.Loaded.{traced, events, query-trace_all}
use pmu_min_suite.Hook.Tests.{
  kernel, empty, cleared, wrappers, loaded_registry, switched_on, module_loads,
}

-- The task whose structure is at an address.
abbrev task_of : ℕ → Task
task_of p = task (p - 1)

-- The task of pid 1 is tracked.
abbrev first : PerfTracker
first = record {
  perf_event_list = update (λ p. []) 2 (record { pmu_private = 4096 } ∷ []);
  removing_event = false;
}

abbrev only_one : ℕ → Bool
only_one id = id == 1

abbrev attach : ℕ → ℕ × ℕ
attach c = (c + 1, 8192)

abbrev detach : ℕ → ℕ → ℕ
detach d c = c

abbrev addresses : Addresses
addresses = record { track_ctxs = 1; track_fork = 2; track_exit = 3 }

abbrev nothing : ℕ → Args → PerfTracker × ℕ → PerfTracker × ℕ
nothing f args k = k

-- Pid 1 forks pid 2, and exits; after the unloading pid 2 exits.
abbrev before : List Traced
before = fork true 2 3 ∷ switch 3 2 ∷ exit 2 ∷ []

abbrev late : List Traced
late = exit 3 ∷ []

abbrev m : Module kernel
m = record { registry = empty; shook = loaded }

abbrev m' : Module kernel
m' = record { registry = loaded_registry; shook = switched_on (tracker_init addresses loaded).0 }

first-Tracks : Tracks perf_tracker attach detach (λ c. inl (omega arith)) world first only_one
first-Tracks = record {
  ready = record { settled = refl; single = λ a. ground arith };
  agree = λ t h. ground arith;
}

before_occur : OccurAll world only_one (
    events kernel cleared wrappers addresses perf_tracker attach detach
      (λ c. inl (omega arith))
      world
      task_of
      nothing
      before)
unfolding inherit
before_occur =
    (((refl, refl), (refl, refl), refl, refl), (((refl, refl), (refl, refl)), ((refl, refl), tt)))

query-trace_all_example :
    ((traced kernel cleared wrappers addresses perf_tracker attach detach
        (λ c. inl (omega arith))
        world
        task_of
        nothing
        (m'.shook, (first, 0))
        before).0
      ≡ m'.shook)
    × ((m'' : Module kernel) × (switch_hook_module_exit kernel cleared wrappers
            (tracker_init addresses)
            tracker_fini
            m'
          ≡ some m'')
        × (m''.registry.hooks_list ≡ [])
        × (perf_tracker.query_tracker
              (traced kernel cleared wrappers addresses perf_tracker attach detach
                (λ c. inl (omega arith))
                world
                task_of
                nothing
                (
                  m''.shook,
                  (traced kernel cleared wrappers addresses perf_tracker attach detach
                      (λ c. inl (omega arith))
                      world
                      task_of
                      nothing
                      (m'.shook, (first, 0))
                      before).1,
                )
                late).1.0
              (task_of 3)
            ≡ true))
unfolding inherit_all inherit
query-trace_all_example =
    query-trace_all kernel cleared wrappers addresses perf_tracker attach detach
      (λ c. inl (omega arith)) world task_of nothing m m' (pos 0) (first, 0) only_one before late
      (task_of 3) module_loads refl refl (omega arith) first-Tracks before_occur (refl, refl)
