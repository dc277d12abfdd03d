-- ===== src/Client/SamplingTests.antt =====
-- The client module at work on concrete inputs: the tracker of ptracker_perf.c, the lists of carray.c,
-- two processors.
use pmu_min_suite.Prelude.{
  ℕ, ◌+◌, ◌*◌, ◌^◌, ◌≡◌, refl, arith, true, false, Bool-cases, inr, none, some, List, [], ◌∷◌, pos,
  inl, ◌==◌, if◌then◌else◌,
}
use mathlib.Core.Option.{some-injective}
use mathlib.Core.Path.{subst}
use pmu_min_suite.Clist.Instances.{carray_clist}
use pmu_min_suite.Tracker.Sample.{task, world}
use pmu_min_suite.Tracker.Perf.{PerfTracker}
use pmu_min_suite.Tracker.Perf.Map.{perf_tracker}
use pmu_min_suite.Client.Pmi.{ProcData}
use pmu_min_suite.Client.Buffering.{buff_entries, global_buffer_size}
use pmu_min_suite.Client.Buffering.Samples.{AllHold, HoldsAt}
use pmu_min_suite.Client.Processes.{PidApi}
use pmu_min_suite.Client.Sampling.{
  Sampler, Event, interrupts, registers, exits, overflows, happen_all,
}
use pmu_min_suite.Client.Sampling.Safety.{IsSampling}
use pmu_min_suite.Client.Sampling.Entries.{IsFresh, absurd_some}
use pmu_min_suite.Client.Sampling.Registering.{IsAnswer}
use pmu_min_suite.Client.Sampling.Series.{AllAllowed, happen_all-IsSampling}
use pmu_min_suite.Client.Tests
use pmu_min_suite.Client.Tests.{reading, proc_data}
use pmu_min_suite.Client.BufferTests.{kvmalloc, kvmalloc-GivesSize, clist_for, made, heap}

abbrev untouched : PerfTracker
untouched = record { perf_event_list = λ a. []; removing_event = false }

abbrev start : Sampler carray_clist perf_tracker
start = record {
  world = record {
    refs = record { pids = λ a. 1; tasks = λ a. 1 };
    tracker = untouched;
    memory = record { clists = heap; procs = λ p. none };
  };
  buffers = record { pcpu_clist = λ cpu. some (cpu * 8 + 8); live = λ a. true };
  cpus = λ cpu. Tests.registers;
  pmi_counters = λ cpu. 0;
}

start-IsSampling : IsSampling carray_clist perf_tracker world 2 start
unfolding AllHold HoldsAt
start-IsSampling = record {
  ready = record { settled = refl; single = λ a. ground arith };
  buffers = λ cpu lt.
      let (ok, fits) =
        carray_clist.init-IsOk kvmalloc (buff_entries global_buffer_size 88) 88
          (clist_for (buff_entries global_buffer_size 88) 88) kvmalloc-GivesSize (omega arith)
          (omega arith) (omega arith) (made (buff_entries global_buffer_size 88) 88) in
      (cpu * 8 + 8, refl, (clist_for (buff_entries global_buffer_size 88) 88, refl, ok, fits));
  in_memory = λ t proc has e. absurd (absurd_some proc refl e);
  apart = λ t u proc has has' e. absurd (absurd_some proc refl e);
  sized = λ proc d e. absurd (absurd_some d refl e);
  owned = λ proc d e. absurd (absurd_some d refl e);
}

-- Pid 5 is at 64.
abbrev pid_api : PidApi
pid_api = record {
  kstrtouint_from_user = (pos 0, 5);
  find_get_pid = λ nr. if nr == 5 then some 64 else none;
  pid_task = λ pid. if pid == 64 then some (task 5) else none;
  kmalloc = some (8192, proc_data);
  alloc = true;
}

abbrev events : List (Event carray_clist perf_tracker)
events =
    registers pid_api 1
    ∷ overflows 1 (2 ^ 33)
    ∷ interrupts 1 (task 5)
    ∷ interrupts 0 (task 4)
    ∷ exits (task 5)
    ∷ []

pid_api-IsAnswer : IsAnswer carray_clist perf_tracker world 2 start pid_api
pid_api-IsAnswer = record {
  finds_memory = refl;
  gives = λ proc held e.
      subst (λ (p : ℕ × ProcData). IsFresh carray_clist perf_tracker start p.0 p.1)
        (some-injective _ _ e)
        (omega arith, inl (omega arith), refl, record { fixed = refl; general = refl });
  finds_task = λ nr pid t e e'. elim (Bool-cases (pid == 64)) [
    | inl same ↦ (subst world.Has (some-injective _ _ (rw same at e')) (refl, refl), refl)
    | inr other ↦ absurd (absurd_some t (rw other refl) e')
  ];
}

events_allowed : AllAllowed carray_clist perf_tracker world 2 reading start events
events_allowed = (
  pid_api-IsAnswer,
  λ x e. (
    tt,
    λ x' e'. (
      (omega arith, (refl, refl)),
      λ x'' e''. ((omega arith, (refl, refl)), λ x''' e'''. ((refl, refl), λ x'''' e''''. tt)),
    ),
  ),
)

happen_all-IsSampling_example :
    (x' : Sampler carray_clist perf_tracker) × (happen_all carray_clist perf_tracker reading start
        events
      ≡ some x')
    × IsSampling carray_clist perf_tracker world 2 x'
happen_all-IsSampling_example =
    happen_all-IsSampling carray_clist perf_tracker world 2 reading events start
      (record { fixed = omega arith; general = omega arith }) start-IsSampling events_allowed
