-- ===== src/Client/Buffering/Bthread.antt =====
-- client/buffering/bthread.c: one clist for each tracked task, by its address `info`; NULL is 0. The
-- address that a new clist gets and the memory under it are arguments.
use pmu_min_suite.Prelude.{ℕ, Option, none, some, ◌==◌, if◌then◌else◌, ℤ, pos, einval, List}
use pmu_min_suite.Prelude.Family.{update}
use pmu_min_suite.Clist.Contract.{Clist}
use pmu_min_suite.Client.Buffering.{local_buffer_size, buff_entries}
use pmu_min_suite.Client.Buffering.Heap.{Heap, write_at}

module _ (T : Clist) where
  unfoldable pub buffering_dynamic_init : (ℕ → Option (List ℕ)) → ℕ → Heap T → ℕ → Heap T × ℕ
  buffering_dynamic_init kvmalloc address heap entry_size =
      elim (T.init_clist kvmalloc (buff_entries local_buffer_size entry_size) entry_size) [
        | none ↦ (heap, 0)
        | some c ↦ (update heap address (some c), address)
      ]

  -- `kvfree` of NULL does nothing.
  unfoldable pub buffering_dynamic_fini : Heap T → ℕ → Heap T
  buffering_dynamic_fini heap info = if info == 0 then heap else update heap info none

  unfoldable pub write_sample : Heap T → ℕ → List ℕ → Option (Heap T × ℤ)
  write_sample heap info sample =
      if info == 0
      then some (heap, einval)
      else elim (write_at T heap info sample) [ none ↦ none | some heap' ↦ some (heap', pos 0) ]
