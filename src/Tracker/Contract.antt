-- ===== src/Tracker/Contract.antt =====
-- The interface of ptracker.h: a tracker as a partial map from tasks to pointers. `Ready` is the
-- state between two operations, in which no task has more than one entry.
use pmu_min_suite.Prelude.{
  ℕ, ◌-◌, ◌^◌, ◌≤◌, ◌<◌, ◌≡◌, ◌≢◌, ◌⊎◌, Bool, true, Option, none, some, ℤ, is_some,
}
use pmu_min_suite.Tracker.Task.{Task}

-- A task structure that exists and has a stack.
abbrev pub IsLive : Task → Type 0
IsLive t = (t.addr ≢ 0) × (t.stack ≢ 0)

-- Two tasks of the system: they share neither structure nor pid nor stack.
abbrev pub Apart : Task → Task → Type 0
Apart t u = (t.addr ≢ u.addr) × (t.pid ≢ u.pid) × (t.stack ≢ u.stack)

-- A pointer in canonical form: its upper 16 bits are copies of bit 47.
abbrev pub IsCanonical : ℕ → Type 0
IsCanonical p = (p < 2 ^ 47) ⊎ ((2 ^ 64 - 2 ^ 47 ≤ p) × (p < 2 ^ 64))

-- The pointer that a query of the data returns, NULL for an absent task.
abbrev pub or_null : Option ℕ → ℕ
or_null none = 0
or_null (some d) = d

pub record Tracker : Type 1 where
  pub State : Type 0
  pub tracker_add : Bool → State → Task → ℕ → State × ℤ
  pub tracker_del : State → Task → State × ℕ
  pub query_tracker : State → Task → Bool
  pub query_data_tracker : State → Task → ℕ
  pub Ready : State → Type 0
  pub lookup : State → Task → Option ℕ
  pub query_lem : (s : State) (t : Task) → Ready s → query_tracker s t ≡ is_some (lookup s t)
  pub query_data_lem :
      (s : State) (t : Task) → Ready s → query_data_tracker s t ≡ or_null (lookup s t)
  pub add-Ready :
      (alloc : Bool) (s : State) (t : Task) (d : ℕ)
      → Ready s
      → IsLive t
      → lookup s t ≡ none
      → Ready (tracker_add alloc s t d).0
  pub lookup-add :
      (s : State) (t : Task) (d : ℕ)
      → Ready s
      → IsLive t
      → IsCanonical d
      → lookup s t ≡ none
      → lookup (tracker_add true s t d).0 t ≡ some d
  pub lookup-add_other :
      (alloc : Bool) (s : State) (t u : Task) (d : ℕ)
      → Ready s
      → Apart t u
      → lookup (tracker_add alloc s t d).0 u ≡ lookup s u
  pub del-Ready : (s : State) (t : Task) → Ready s → Ready (tracker_del s t).0
  pub lookup-del : (s : State) (t : Task) → Ready s → IsLive t → lookup (tracker_del s t).0 t ≡ none
  pub del-returns : (s : State) (t : Task) → Ready s → (tracker_del s t).1 ≡ or_null (lookup s t)
  pub lookup-del_other :
      (s : State) (t u : Task) → Ready s → Apart t u → lookup (tracker_del s t).0 u ≡ lookup s u
