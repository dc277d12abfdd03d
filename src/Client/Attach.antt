-- ===== src/Client/Attach.antt =====
-- client/client_module.c: the data that a task gets when it is tracked, with the buffers of
-- client/buffering/bthread.c. `kmalloc` gives NULL, or an address and what the memory there holds.
pub mod Lifetime
pub mod Forks
use pmu_min_suite.Prelude.{
  ℕ, zero, suc, ◌/◌, ◌%◌, ◌^◌, Bool, true, false, Option, none, some, ◌==◌, if◌then◌else◌, ℤ,
  enomem, is_some, List, [], ◌∷◌, ◌++◌,
}
use pmu_min_suite.Prelude.Family.{update}
use pmu_min_suite.Clist.Contract.{Clist}
use pmu_min_suite.Tracker.Task.{Task}
use pmu_min_suite.Tracker.Contract.{Tracker}
use pmu_min_suite.Client.Pmi.{PmcsData, ProcData}
use pmu_min_suite.Client.Buffering.Heap.{Heap}
use pmu_min_suite.Client.Buffering.Bthread.{buffering_dynamic_init, buffering_dynamic_fini}

-- `sizeof(struct proc_data)`
abbrev pub proc_data_size : ℕ
proc_data_size = 96

-- The bytes of a word, the lowest first, and those of words one after the other.
abbrev pub word_bytes : ℕ → ℕ → List ℕ
word_bytes zero w = []
word_bytes (suc n) w = w % 256 ∷ word_bytes n (w / 256)

abbrev pub words_bytes : List ℕ → List ℕ
words_bytes [] = []
words_bytes (w ∷ ws) = word_bytes 8 w ++ words_bytes ws

-- What stands at `(u8 *)&proc_data->pmcs`, to the end of the structure.
abbrev pub sample_of : PmcsData → List ℕ
sample_of d = words_bytes d.fixed ++ words_bytes d.general

-- The clists and the structures `proc_data` in memory.
pub record Memory (T : Clist) : Type 0 where
  pub clists : Heap T
  pub procs : ℕ → Option ProcData

module _ (T : Clist) where
  unfoldable pub client_hook_on_attach :
      Option (ℕ × ProcData) → (ℕ → Option (List ℕ)) → ℕ → Memory T → Memory T × ℕ
  client_hook_on_attach kmalloc kvmalloc address m = elim kmalloc [
    | none ↦ (m, 0)
    | some (proc, held) ↦
        let (clists, clist) = buffering_dynamic_init T kvmalloc address m.clists proc_data_size in
        (
          record {
            clists = clists;
            procs = update m.procs proc (some (record held { clist = clist }));
          },
          proc,
        )
  ]

  -- The function returns NULL. `none` is a structure that is not there.
  unfoldable pub client_hook_on_detach : ℕ → Memory T → Option (Memory T)
  client_hook_on_detach proc m = if proc == 0 then some m else elim (m.procs proc) [
    | none ↦ none
    | some d ↦ some (record {
      clists = buffering_dynamic_fini T m.clists d.clist;
      procs = update m.procs proc none;
    })
  ]

  -- `alloc` is what tracker_add finds of memory. The new structure keeps what the memory held.
  unfoldable pub register_process :
      (R : Tracker)
      → Option (ℕ × ProcData)
      → Bool
      → R.State × Memory T
      → Task
      → (R.State × Memory T) × ℤ
  register_process R kmalloc alloc (s, m) task = elim kmalloc [
    | none ↦ ((s, m), enomem)
    | some (proc, held) ↦
        let (s', err) = R.tracker_add alloc s task proc in
        ((s', record m { procs = update m.procs proc (some held) }), err)
  ]
