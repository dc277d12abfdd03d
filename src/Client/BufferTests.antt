-- ===== src/Client/BufferTests.antt =====
-- The buffers and the tracked tasks of the client module on concrete inputs.
use pmu_min_suite.Prelude.{
  ℕ, ◌+◌, ◌*◌, ◌%◌, ◌≡◌, refl, Bool, true, Option, none, some, List, [], ◌∷◌, arith, pos, ◌==◌,
  if◌then◌else◌, inl, inr, Option-cases, is_some, ap, sym, ◌∙◌,
}
use mathlib.Core.Option.{some-injective}
use pmu_min_suite.Prelude.Lists.{length, length-replicate, replicate, drop}
use pmu_min_suite.Clist.Contract.{GivesSize}
use pmu_min_suite.Clist.Carray.{Carray, header_size, alloc_size}
use pmu_min_suite.Clist.Carray
use pmu_min_suite.Clist.Instances.{carray_clist, carray-ReadsAll}
use pmu_min_suite.Tracker.Task.{Task}
use pmu_min_suite.Tracker.Sample.{task}
use pmu_min_suite.Tracker.Stack.Laws.{query_iff}
use pmu_min_suite.Tracker.Stack.Map.{stack_tracker}
use pmu_min_suite.Client.Pmi.{ProcData}
use pmu_min_suite.Client.Buffering.{
  buffering_static_init, buff_entries, global_buffer_size, local_buffer_size,
}
use pmu_min_suite.Client.Buffering.Heap.{Heap}
use pmu_min_suite.Client.Buffering.Samples.{write_samples, write_samples-buffering_static_init}
use pmu_min_suite.Client.Buffering.Bthread.{write_sample}
use pmu_min_suite.Client.Attach.{proc_data_size, sample_of, Memory, client_hook_on_attach}
use pmu_min_suite.Client.Attach.Lifetime.{write_sample-client_hook_on_attach}
use pmu_min_suite.Client.Pmu.{Settings}
use pmu_min_suite.Client.Switch
use pmu_min_suite.Client.Switch.{switches, last}
use pmu_min_suite.Client.Switch.Filter.{wanted, switches-wanted}
use pmu_min_suite.Client.Processes.{PidApi, World, processes_write}
use pmu_min_suite.Client.Processes.References.{pids_after, processes_write_refs}
use pmu_min_suite.Client.Tests.{registers, reading, proc_data, no_clists, clist_of}

abbrev pub kvmalloc : ℕ → Option (List ℕ)
kvmalloc size = some (replicate size 7)

pub kvmalloc-GivesSize : GivesSize kvmalloc
kvmalloc-GivesSize size block e =
    ap (λ b. length b) (sym (some-injective _ _ e)) ∙ length-replicate size 7

-- The clist that is made for `count` entries of `size` bytes.
abbrev pub clist_for : ℕ → ℕ → Carray
clist_for count size = record {
  len = count;
  stride = size;
  idx = 0;
  buf = drop header_size (replicate (alloc_size count size) 7);
}

pub made : (count size : ℕ) → Carray.init_clist kvmalloc count size ≡ some (clist_for count size)
unfolding Carray.init_clist
made count size = refl

-- Two processors, whose clists lie at 8 and 16, and a sample for each.
abbrev pub heap : Heap carray_clist
heap a = some (clist_for (buff_entries global_buffer_size 88) 88)

abbrev samples : List (ℕ × List ℕ)
samples = (1, replicate 88 1) ∷ (0, replicate 88 2) ∷ []

write_samples-buffering_static_init_example :
    ((buffering_static_init clist_of 88 2 no_clists).1 ≡ pos 0)
    × ((heap' : Heap carray_clist) × (write_samples carray_clist
            (buffering_static_init clist_of 88 2 no_clists).0
            heap
            samples
          ≡ some heap'))
write_samples-buffering_static_init_example =
    write_samples-buffering_static_init carray_clist clist_of kvmalloc 2 88 no_clists heap samples
      kvmalloc-GivesSize (omega arith) (omega arith)
      (λ cpu lt. (
        cpu * 8 + 8,
        clist_for (buff_entries global_buffer_size 88) 88,
        refl,
        made (buff_entries global_buffer_size 88) 88,
        refl,
      ))
      (omega arith, omega arith, (omega arith, omega arith, tt))

abbrev pub empty : Memory carray_clist
empty = record { clists = λ a. none; procs = λ p. none }

write_sample-client_hook_on_attach_example :
    (r : ProcData) × ((client_hook_on_attach carray_clist
          (some (8192, proc_data))
          kvmalloc
          4096
          empty).0.procs
        8192
      ≡ some r)
    × (write_sample carray_clist
          (client_hook_on_attach carray_clist (some (8192, proc_data)) kvmalloc 4096 empty).0.clists
          r.clist
          (sample_of proc_data.pmcs)
        ≡ none)
write_sample-client_hook_on_attach_example =
    write_sample-client_hook_on_attach carray_clist carray-ReadsAll kvmalloc 4096 8192 proc_data
      empty (clist_for (buff_entries local_buffer_size proc_data_size) proc_data_size)
      proc_data.pmcs (omega arith)
      (made (buff_entries local_buffer_size proc_data_size) proc_data_size) refl refl

-- The tasks with an odd pid are tracked.
abbrev odd : Task → Bool
odd t = t.pid % 2 == 1

abbrev filtering : Settings
filtering = record reading { thread_filter = true }

switches-wanted_example :
    (switches odd filtering registers (task 2) (task 3 ∷ task 5 ∷ [])).global_ctrl
    ≡ wanted filtering true
switches-wanted_example =
    switches-wanted odd filtering registers (task 2) (task 3 ∷ task 5 ∷ []) refl refl

-- The counters that are on at the start stay on, until a tracked task runs.
switches_two_four :
    (switches odd filtering
      (record registers { global_ctrl = 7 })
      (task 2)
      (task 4 ∷ [])).global_ctrl
    ≡ 7
unfolding switches Switch.client_hook_sched_in
switches_two_four = refl

-- Pid 5 is at 64.
abbrev pid_api : PidApi
pid_api = record {
  kstrtouint_from_user = (pos 0, 5);
  find_get_pid = λ nr. if nr == 5 then some 64 else none;
  pid_task = λ pid. if pid == 64 then some (task 5) else none;
  kmalloc = some (8192, proc_data);
  alloc = true;
}

abbrev world : World carray_clist stack_tracker
world = record { refs = record { pids = λ a. 1; tasks = λ a. 1 }; tracker = λ a. 0; memory = empty }

processes_write_refs_example :
    ((a : ℕ) → (processes_write carray_clist stack_tracker pid_api world 1).0.refs.tasks a ≡ 1)
    × ((processes_write carray_clist stack_tracker pid_api world 1).0.refs.pids
        ≡ pids_after pid_api (λ a. 1))
processes_write_refs_example = processes_write_refs carray_clist stack_tracker pid_api world 1

-- One reference is left on the pid.
pids_after_five : pids_after pid_api (λ a. 1) 64 ≡ 2
pids_after_five = refl

pub blank_absent : stack_tracker.lookup world.tracker (task 5) ≡ none
blank_absent = elim (Option-cases (stack_tracker.lookup world.tracker (task 5))) [
  | inl e ↦ e
  | inr (p, e) ↦ absurd (
      omega (
        arith,
        (query_iff world.tracker (task 5) (omega arith)).0
            (stack_tracker.query_lem world.tracker (task 5) tt ∙ ap (λ o. is_some o) e),
      ))
]
