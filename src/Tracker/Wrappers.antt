-- ===== src/Tracker/Wrappers.antt =====
-- ptracker.c: what the hooks on a switch, a fork and an exit do with a tracker. The callbacks
-- `hook_on_attach` and `hook_on_detach` run on the client's state `C`; the argument `alloc` of a
-- fork tells whether the memory that `tracker_add` asks for is there.
pub mod Trace
use pmu_min_suite.Prelude.{ℕ, Bool, true, false, if◌then◌else◌}
use pmu_min_suite.Tracker.Task.{Task}
use pmu_min_suite.Tracker.Contract.{Tracker}

pub data Event : Type 0 where
  switch : Task → Task → Event
  fork : Bool → Task → Task → Event
  exit : Task → Event

module _ (T : Tracker) {C : Type 0} (on_attach : C → C × ℕ) (on_detach : ℕ → C → C) where
  open T use {State, tracker_add, tracker_del, query_tracker}

  -- Both queries are made, and their answers dropped.
  unfoldable pub track_ctxs_wrapper : State × C → Task → Task → State × C
  track_ctxs_wrapper (s, c) prev next =
      let prev_tracked = query_tracker s prev in let next_tracked = query_tracker s next in (s, c)

  unfoldable pub track_fork_wrapper : Bool → State × C → Task → Task → State × C
  track_fork_wrapper alloc (s, c) parent child =
      if query_tracker s parent
      then (let (c', data_ptr) = on_attach c in ((tracker_add alloc s child data_ptr).0, c'))
      else (s, c)

  unfoldable pub track_exit_wrapper : State × C → Task → State × C
  track_exit_wrapper (s, c) p = let (s', data_ptr) = tracker_del s p in (s', on_detach data_ptr c)

  unfoldable pub handle : State × C → Event → State × C
  handle sc (switch prev next) = track_ctxs_wrapper sc prev next
  handle sc (fork alloc parent child) = track_fork_wrapper alloc sc parent child
  handle sc (exit p) = track_exit_wrapper sc p
