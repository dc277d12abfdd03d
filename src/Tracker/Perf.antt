-- ===== src/Tracker/Perf.antt =====
-- ptracker_perf.c: the tracker that hangs a disabled software event on a task and keeps the data
-- in the event's `pmu_private`. Whether `perf_event_create_kernel_counter` gives an event is the
-- argument `created`; a mutex is taken and released within an operation and is not modelled.
pub mod Map
use pmu_min_suite.Prelude.{
  ℕ, Bool, true, false, Option, none, some, ◌==◌, if◌then◌else◌, ℤ, pos, is_some, List, [], ◌∷◌,
  ◌++◌,
}
use pmu_min_suite.Prelude.Family.{update}
use pmu_min_suite.Tracker.Task.{Task}

pub record PerfEvent : Type 0 where
  pub pmu_private : ℕ

-- `perf_event_list` by the address of the task, and this processor's `pcpu_removing_event`.
pub record PerfTracker : Type 0 where
  pub perf_event_list : ℕ → List PerfEvent
  pub removing_event : Bool

abbrev pub list_first_entry_or_null : List PerfEvent → Option PerfEvent
list_first_entry_or_null [] = none
list_first_entry_or_null (e ∷ es) = some e

-- `list_del` of the first entry.
abbrev pub list_del_first : List PerfEvent → List PerfEvent
list_del_first [] = []
list_del_first (e ∷ es) = es

-- `event->pmu_private = NULL`, if it is not NULL already.
abbrev pub clear_private : List PerfEvent → List PerfEvent
clear_private [] = []
clear_private (e ∷ es) = if e.pmu_private == 0 then e ∷ es else record e { pmu_private = 0 } ∷ es

pub get_perf_event : PerfTracker → Task → Option PerfEvent
get_perf_event s task = list_first_entry_or_null (s.perf_event_list task.addr)

pub get_task_event : PerfTracker → Task → Option PerfEvent
get_task_event s task = if s.removing_event then none else get_perf_event s task

pub get_task_data : PerfTracker → Task → ℕ
get_task_data s task = elim (get_task_event s task) [ none ↦ 0 | some event ↦ event.pmu_private ]

pub create_task_data : Bool → PerfTracker → Task → ℕ → PerfTracker × Bool
create_task_data created s task data_ptr =
    if task.addr == 0
    then (s, false)
    else if created
    then (
      record s {
        perf_event_list =
            update s.perf_event_list task.addr
              (s.perf_event_list task.addr ++ record { pmu_private = data_ptr } ∷ []);
      },
      true,
    )
    else (s, false)

-- The state in which `destroy_task_data` can be preempted: the flag is set first and cleared last.
pub removing : PerfTracker → PerfTracker
removing s = record s { removing_event = true }

pub destroy_task_data : PerfTracker → Task → PerfTracker
destroy_task_data s task =
    let marked = removing s in
    elim (get_perf_event marked task) [
      | none ↦ record marked { removing_event = false }
      | some event ↦ record marked {
        perf_event_list =
            update marked.perf_event_list task.addr
              (list_del_first (clear_private (marked.perf_event_list task.addr)));
        removing_event = false;
      }
    ]

pub tracker_add : Bool → PerfTracker → Task → ℕ → PerfTracker × ℤ
tracker_add created s task data_ptr = elim (get_task_event s task) [
  | none ↦ ((create_task_data created s task data_ptr).0, pos 0)
  | some event ↦ (s, pos 0)
]

pub tracker_del : PerfTracker → Task → PerfTracker × ℕ
tracker_del s task = elim (get_task_event s task) [
  | none ↦ (s, 0)
  | some event ↦ (destroy_task_data s task, event.pmu_private)
]

pub query_tracker : PerfTracker → Task → Bool
query_tracker s task = is_some (get_task_event s task)

pub query_data_tracker : PerfTracker → Task → ℕ
query_data_tracker s task = get_task_data s task
