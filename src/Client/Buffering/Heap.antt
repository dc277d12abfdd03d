-- ===== src/Client/Buffering/Heap.antt =====
-- The clists in memory by their addresses, for the files of client/buffering/. `none` is an access to
-- a clist that is not there, or one that leaves its clist or its sample.
use pmu_min_suite.Prelude.{ℕ, Option, none, some, List}
use pmu_min_suite.Prelude.Family.{update}
use pmu_min_suite.Clist.Contract.{Clist}

module _ (T : Clist) where
  abbrev pub Heap : Type 0
  Heap = ℕ → Option T.State

  -- `write_clist(info, sample)`
  abbrev pub write_at : Heap → ℕ → List ℕ → Option Heap
  write_at heap info sample = elim (heap info) [
    | none ↦ none
    | some c ↦ elim (T.write_clist c sample) [
      | none ↦ none
      | some c' ↦ some (update heap info (some c'))
    ]
  ]
