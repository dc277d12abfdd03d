-- ===== src/Hook/Dispatch.antt =====
-- From the kernel's tracepoints to the tracker: the handlers of system_hook_tracep.c call, through the
-- callbacks that `tracker_init` has set, the wrappers of ptracker.c. A function is its address, and
-- `task_of` gives the task structure at an address; what a function of another module does, which a
-- callback can be as well, is the parameter `other`.
pub mod Loaded
use pmu_min_suite.Prelude.{ℕ, Bool, false, ◌==◌, if◌then◌else◌, ℤ, pos, List, [], ◌∷◌}
use pmu_min_suite.Tracker.Task.{Task}
use pmu_min_suite.Tracker.Contract.{Tracker}
use pmu_min_suite.Tracker.Wrappers
use pmu_min_suite.Tracker.Wrappers.{
  Event, track_ctxs_wrapper, track_fork_wrapper, track_exit_wrapper, handle,
}
use pmu_min_suite.Hook.{Callback, dummy, call, Shook, register_hooks, unregister_hooks}
use pmu_min_suite.Hook.Handlers.{
  Args, args_sched_in, args_proc_fork, args_proc_exit, whook_sched_in, whook_proc_fork,
  whook_proc_exit,
}

-- The addresses of the wrappers of ptracker.c.
pub record Addresses : Type 0 where
  pub track_ctxs : ℕ
  pub track_fork : ℕ
  pub track_exit : ℕ

-- `tracker_init` and `tracker_fini` of the trackers without a table.
abbrev pub tracker_init : Addresses → Shook → Shook × ℤ
tracker_init a s = (register_hooks a.track_ctxs a.track_fork a.track_exit s, pos 0)

abbrev pub tracker_fini : Shook → Shook
tracker_fini s = unregister_hooks s

-- What the kernel reports, with the addresses of the tasks; `fork` has what the memory of the tracker
-- is for the child.
pub data Traced : Type 0 where
  switch : ℕ → ℕ → Traced
  fork : Bool → ℕ → ℕ → Traced
  exit : ℕ → Traced

module _ (T : Tracker) {C : Type 0} (on_attach : C → C × ℕ) (on_detach : ℕ → C → C) (a : Addresses)
    (task_of : ℕ → Task) (other : ℕ → Args → T.State × C → T.State × C) where
  -- A call through a callback, with what the tracker finds of memory.
  unfoldable pub invoke : Bool → Callback → Args → T.State × C → T.State × C
  invoke alloc dummy args k = k
  invoke alloc (call f) (args_sched_in data_ptr preempt prev next) k =
      if f == a.track_ctxs
      then track_ctxs_wrapper T on_attach on_detach k (task_of prev) (task_of next)
      else other f (args_sched_in data_ptr preempt prev next) k
  invoke alloc (call f) (args_proc_fork data_ptr parent child) k =
      if f == a.track_fork
      then track_fork_wrapper T on_attach on_detach alloc k (task_of parent) (task_of child)
      else other f (args_proc_fork data_ptr parent child) k
  invoke alloc (call f) (args_proc_exit data_ptr p) k =
      if f == a.track_exit
      then track_exit_wrapper T on_attach on_detach k (task_of p)
      else other f (args_proc_exit data_ptr p) k

  -- The kernel calls the handler of the tracepoint.
  unfoldable pub trace : Shook × (T.State × C) → Traced → Shook × (T.State × C)
  trace (s, k) (switch prev next) = whook_sched_in (invoke false) (s, k) 0 false prev next
  trace (s, k) (fork alloc parent child) = whook_proc_fork (invoke alloc) (s, k) 0 parent child
  trace (s, k) (exit p) = whook_proc_exit (invoke false) (s, k) 0 p

  unfoldable pub trace_all : Shook × (T.State × C) → List Traced → Shook × (T.State × C)
  trace_all sk [] = sk
  trace_all sk (e ∷ es) = trace_all (trace sk e) es

  -- The event of the wrappers.
  abbrev pub event_of : Traced → Event
  event_of (switch prev next) = Event.switch (task_of prev) (task_of next)
  event_of (fork alloc parent child) = Event.fork alloc (task_of parent) (task_of child)
  event_of (exit p) = Event.exit (task_of p)

  abbrev pub events_of : List Traced → List Event
  events_of [] = []
  events_of (e ∷ es) = event_of e ∷ events_of es
