-- ===== src/Clist/Contract.antt =====
-- The interface of client/clist/clist.h: a list that takes samples. `reads` is the number of bytes
-- that a write takes from its bucket, and `none` a write that leaves the list or its bucket.
use pmu_min_suite.Prelude.{ℕ, ◌*◌, ◌^◌, ◌≤◌, ◌<◌, ◌≡◌, Option, none, some, List}
use pmu_min_suite.Prelude.Lists.{length}

-- `kvmalloc` gives blocks of the size that it is asked for.
abbrev pub GivesSize : (ℕ → Option (List ℕ)) → Type 0
GivesSize kvmalloc = (size : ℕ) (block : List ℕ) → kvmalloc size ≡ some block → length block ≡ size

pub record Clist : Type 1 where
  pub State : Type 0
  pub init_clist : (ℕ → Option (List ℕ)) → ℕ → ℕ → Option State
  pub write_clist : State → List ℕ → Option State
  pub reads : State → ℕ
  pub IsOk : State → Type 0
  pub init-IsOk :
      (kvmalloc : ℕ → Option (List ℕ)) (entry_count entry_size : ℕ) (c : State)
      → GivesSize kvmalloc
      → 1 ≤ entry_count
      → 1 ≤ entry_size
      → entry_count * entry_size < 2 ^ 31
      → init_clist kvmalloc entry_count entry_size ≡ some c
      → IsOk c × (reads c ≤ entry_size)
  pub write-IsOk :
      (c : State) (bucket : List ℕ)
      → IsOk c
      → reads c ≤ length bucket
      → (c' : State) × (write_clist c bucket ≡ some c') × IsOk c' × (reads c' ≡ reads c)

-- A list whose entries have the size that it was made for: it reads all of it from each bucket.
pub record ReadsAll (T : Clist) : Type 1 where
  pub init-reads :
      (kvmalloc : ℕ → Option (List ℕ)) (entry_count entry_size : ℕ) (c : T.State)
      → T.init_clist kvmalloc entry_count entry_size ≡ some c
      → T.reads c ≡ entry_size
  pub write-short :
      (c : T.State) (bucket : List ℕ) → length bucket < T.reads c → T.write_clist c bucket ≡ none
