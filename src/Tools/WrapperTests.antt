-- ===== src/Tools/WrapperTests.antt =====
-- The wrapper over the tracker of ptracker_perf.c and the lists of carray.c on concrete inputs.
use pmu_min_suite.Prelude.{
  ℕ, ◌≡◌, refl, arith, true, false, none, some, List, [], ◌∷◌, pos, inl, ◌==◌, if◌then◌else◌,
}
use pmu_min_suite.Prelude.Lists.{replicate}
use pmu_min_suite.Clist.Instances.{carray_clist}
use pmu_min_suite.Tracker.Task.{Task}
use pmu_min_suite.Tracker.Perf.Map.{perf_tracker}
use pmu_min_suite.Client.Pmi.{ProcData}
use pmu_min_suite.Client.Processes.{PidApi, World}
use pmu_min_suite.Tools.Wrapper.{WrapperApi, became, main, main-tracks}

abbrev task : Task
task = record { addr = 6; pid = 5; stack = 8192 }

abbrev held : ProcData
held = record { clist = 0; pmcs = record { fixed = replicate 3 0; general = replicate 8 0 } }

-- One digit; pid 5 is at 64.
abbrev written : List ℕ → PidApi
written [] = record {
  kstrtouint_from_user = (pos 0, 0);
  find_get_pid = λ nr. none;
  pid_task = λ pid. none;
  kmalloc = none;
  alloc = true;
}
written (x ∷ xs) = record {
  kstrtouint_from_user = (pos 0, x);
  find_get_pid = λ nr. if nr == 5 then some 64 else none;
  pid_task = λ pid. if pid == 64 then some task else none;
  kmalloc = some (8192, held);
  alloc = true;
}

abbrev api : WrapperApi
api = record {
  fopen = true;
  getpid = 5;
  digits = λ n. n ∷ [];
  write = written;
  execvp = λ exec args. true;
}

abbrev world : World carray_clist perf_tracker
world = record {
  refs = record { pids = λ a. 1; tasks = λ a. 1 };
  tracker = record { perf_event_list = λ a. []; removing_event = false };
  memory = record { clists = λ a. none; procs = λ p. none };
}

-- `wrapper ls -l`
abbrev name : List ℕ
name = 119 ∷ []

abbrev ls : List ℕ
ls = 108 ∷ 115 ∷ []

abbrev minus_l : List ℕ
minus_l = 45 ∷ 108 ∷ []

main-tracks_example :
    (w' : World carray_clist perf_tracker) × (main carray_clist perf_tracker api world
        (name ∷ ls ∷ minus_l ∷ [])
      ≡ (w', became ls (ls ∷ minus_l ∷ [])))
    × (perf_tracker.lookup w'.tracker task ≡ some 8192)
    × (w'.memory.procs 8192 ≡ some held)
main-tracks_example =
    main-tracks carray_clist perf_tracker api world name ls minus_l [] 64 8192 task held refl refl
      refl refl refl refl refl (record { settled = refl; single = λ a. ground arith }) (omega arith)
      (inl (omega arith)) refl
