-- ===== src/Tracker/Stack/Map.antt =====
-- ptracker_stack.c as an instance of the interface of ptracker.h. It needs no memory, so it ignores
-- whether an allocation would succeed.
use pmu_min_suite.Prelude.{ℕ, ◌+◌, ◌≡◌, Bool, true, Option, none, some, ℤ, is_some, arith}
use pmu_min_suite.Tracker.Task.{Task}
use pmu_min_suite.Tracker.Contract.{Tracker, IsLive, Apart, IsCanonical, or_null}
use pmu_min_suite.Tracker.Stack.{
  Memory, build_ptr, get_magic_entry, get_patched_data, tracker_add, tracker_del, query_tracker,
  query_data_tracker,
}
use pmu_min_suite.Tracker.Stack.Laws.{
  query-del, add-frame, del-frame, patch_lem, get_magic_entry-add, build_ptr-magic_entry,
}

abbrev pub lookup : Memory → Task → Option ℕ
lookup m t = elim (get_magic_entry m t) [ none ↦ none | some entry ↦ some (build_ptr (m entry)) ]

-- Any contents of memory are a state of the tracker.
abbrev pub Ready : Memory → Type 0
Ready m = Unit

pub query_lem : (m : Memory) (t : Task) → Ready m → query_tracker m t ≡ is_some (lookup m t)
unfolding query_tracker
query_lem m t r = ground arith

pub query_data_lem :
    (m : Memory) (t : Task) → Ready m → query_data_tracker m t ≡ or_null (lookup m t)
unfolding query_data_tracker get_patched_data
query_data_lem m t r = ground arith

abbrev pub add : Bool → Memory → Task → ℕ → Memory × ℤ
add alloc = tracker_add

pub lookup-add :
    (m : Memory) (t : Task) (d : ℕ)
    → Ready m
    → IsLive t
    → IsCanonical d
    → lookup m t ≡ none
    → lookup (add true m t d).0 t ≡ some d
lookup-add m t d r h c e =
    ground (arith, get_magic_entry-add m t d h, patch_lem m t d h, build_ptr-magic_entry d c)

same_word : (m n : Memory) (t : Task) → m (t.stack + 8) ≡ n (t.stack + 8) → lookup m t ≡ lookup n t
unfolding get_magic_entry
same_word m n t h = ground arith

pub lookup-add_other :
    (alloc : Bool) (m : Memory) (t u : Task) (d : ℕ)
    → Ready m
    → Apart t u
    → lookup (add alloc m t d).0 u ≡ lookup m u
lookup-add_other alloc m t u d r h = same_word _ m u (add-frame m t d (u.stack + 8) (omega arith))

pub lookup-del : (m : Memory) (t : Task) → Ready m → IsLive t → lookup (tracker_del m t).0 t ≡ none
lookup-del m t r h = ground (arith, query_lem (tracker_del m t).0 t tt, query-del m t h.0)

pub del-returns : (m : Memory) (t : Task) → Ready m → (tracker_del m t).1 ≡ or_null (lookup m t)
unfolding tracker_del get_patched_data
del-returns m t r = ground arith

pub lookup-del_other :
    (m : Memory) (t u : Task) → Ready m → Apart t u → lookup (tracker_del m t).0 u ≡ lookup m u
lookup-del_other m t u r h = same_word _ m u (del-frame m t (u.stack + 8) (omega arith))

abbrev pub stack_tracker : Tracker
stack_tracker = record {
  State = Memory;
  tracker_add = add;
  tracker_del = tracker_del;
  query_tracker = query_tracker;
  query_data_tracker = query_data_tracker;
  Ready = Ready;
  lookup = lookup;
  query_lem = query_lem;
  query_data_lem = query_data_lem;
  add-Ready = λ alloc m t d r h e. tt;
  lookup-add = lookup-add;
  lookup-add_other = lookup-add_other;
  del-Ready = λ m t r. tt;
  lookup-del = lookup-del;
  del-returns = del-returns;
  lookup-del_other = lookup-del_other;
}
