-- ===== src/Breader/Mmap.antt =====
-- breader/breader_mmap.c: the file that is mapped into a process. The flags of the area and its
-- empty open and close functions are left out.
use pmu_min_suite.Prelude.{ℕ, ◌/◌, ◌%◌, Option, none, some}
use pmu_min_suite.Breader.{Words}

-- The words of the page that the handler gives for a fault at a page of the area: the page in which
-- the buffer starts. `none` is a fault for which it gives no page.
abbrev pub vm_fault : Option Words → ℕ → Option Words
vm_fault none pgoff = none
vm_fault (some data_buffer) pgoff = some data_buffer

-- Word `i` of the area, which the processor takes from the page at which it faults.
abbrev pub mapped : Option Words → ℕ → Option ℕ
mapped data_buffer i = elim (vm_fault data_buffer (i / 512)) [
  | none ↦ none
  | some page ↦ some (page (i % 512))
]
