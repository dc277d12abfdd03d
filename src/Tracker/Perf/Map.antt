-- ===== src/Tracker/Perf/Map.antt =====
-- ptracker_perf.c as an instance of the interface of ptracker.h.
use pmu_min_suite.Prelude.{
  ℕ, Bool, true, false, Option, none, some, is_some, List, [], ◌∷◌, ◌≡◌, ◌≤◌, suc, arith,
}
use pmu_min_suite.Tracker.Task.{Task}
use pmu_min_suite.Tracker.Contract.{Tracker, IsLive, Apart, IsCanonical, or_null}
use pmu_min_suite.Tracker.Perf.{
  PerfEvent, PerfTracker, list_first_entry_or_null, get_perf_event, get_task_event, get_task_data,
  create_task_data, removing, destroy_task_data, tracker_add, tracker_del, query_tracker,
  query_data_tracker,
}

abbrev pub length : List PerfEvent → ℕ
length [] = 0
length (e ∷ es) = suc (length es)

-- No removal is under way, and no task has an event besides the tracker's.
pub record Ready (s : PerfTracker) : Type 0 where
  pub settled : s.removing_event ≡ false
  pub single : (a : ℕ) → length (s.perf_event_list a) ≤ 1

abbrev pub lookup : PerfTracker → Task → Option ℕ
lookup s t = elim (list_first_entry_or_null (s.perf_event_list t.addr)) [
  | none ↦ none
  | some e ↦ some e.pmu_private
]

pub query_lem : (s : PerfTracker) (t : Task) → Ready s → query_tracker s t ≡ is_some (lookup s t)
unfolding query_tracker get_task_event get_perf_event
query_lem s t r = ground (arith, r.settled)

pub query_data_lem :
    (s : PerfTracker) (t : Task) → Ready s → query_data_tracker s t ≡ or_null (lookup s t)
unfolding query_data_tracker get_task_data get_task_event get_perf_event
query_data_lem s t r = ground (arith, r.settled)

pub add-Ready :
    (alloc : Bool) (s : PerfTracker) (t : Task) (d : ℕ)
    → Ready s
    → IsLive t
    → lookup s t ≡ none
    → Ready (tracker_add alloc s t d).0
unfolding tracker_add create_task_data get_task_event get_perf_event
add-Ready alloc s t d r h e = record {
  settled = ground (arith, r.settled);
  single = λ a. ground (arith, r.settled, r.single a, r.single t.addr);
}

pub lookup-add :
    (s : PerfTracker) (t : Task) (d : ℕ)
    → Ready s
    → IsLive t
    → IsCanonical d
    → lookup s t ≡ none
    → lookup (tracker_add true s t d).0 t ≡ some d
unfolding tracker_add create_task_data get_task_event get_perf_event
lookup-add s t d r h c e = ground (arith, r.settled)

pub lookup-add_other :
    (alloc : Bool) (s : PerfTracker) (t u : Task) (d : ℕ)
    → Ready s
    → Apart t u
    → lookup (tracker_add alloc s t d).0 u ≡ lookup s u
unfolding tracker_add create_task_data get_task_event get_perf_event
lookup-add_other alloc s t u d r h = ground (arith, r.settled)

pub del-Ready : (s : PerfTracker) (t : Task) → Ready s → Ready (tracker_del s t).0
unfolding tracker_del destroy_task_data removing get_task_event get_perf_event
del-Ready s t r = record {
  settled = ground (arith, r.settled);
  single = λ a. ground (arith, r.settled, r.single a, r.single t.addr);
}

pub lookup-del :
    (s : PerfTracker) (t : Task) → Ready s → IsLive t → lookup (tracker_del s t).0 t ≡ none
unfolding tracker_del destroy_task_data removing get_task_event get_perf_event
lookup-del s t r h = ground (arith, r.settled, r.single t.addr)

pub del-returns :
    (s : PerfTracker) (t : Task) → Ready s → (tracker_del s t).1 ≡ or_null (lookup s t)
unfolding tracker_del get_task_event get_perf_event
del-returns s t r = ground (arith, r.settled)

pub lookup-del_other :
    (s : PerfTracker) (t u : Task) → Ready s → Apart t u → lookup (tracker_del s t).0 u ≡ lookup s u
unfolding tracker_del destroy_task_data removing get_task_event get_perf_event
lookup-del_other s t u r h = ground (arith, r.settled)

abbrev pub perf_tracker : Tracker
perf_tracker = record {
  State = PerfTracker;
  tracker_add = tracker_add;
  tracker_del = tracker_del;
  query_tracker = query_tracker;
  query_data_tracker = query_data_tracker;
  Ready = Ready;
  lookup = lookup;
  query_lem = query_lem;
  query_data_lem = query_data_lem;
  add-Ready = add-Ready;
  lookup-add = lookup-add;
  lookup-add_other = lookup-add_other;
  del-Ready = del-Ready;
  lookup-del = lookup-del;
  del-returns = del-returns;
  lookup-del_other = lookup-del_other;
}
