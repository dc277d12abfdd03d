-- ===== src/Tracker/Default.antt =====
-- ptracker.c: the functions that are linked where no other file defines them. They track nothing, and
-- leave the state `W` of the system as it is.
use pmu_min_suite.Prelude.{ℕ, Bool, false, ℤ, pos}
use pmu_min_suite.Tracker.Task.{Task}

module _ {W : Type 0} where
  abbrev pub tracker_add : W → Task → ℕ → W × ℤ
  tracker_add w task d = (w, pos 0)

  abbrev pub tracker_del : W → Task → W × ℕ
  tracker_del w task = (w, 0)

  abbrev pub query_tracker : W → Task → Bool
  query_tracker w task = false

  abbrev pub tracker_init : W → W × ℤ
  tracker_init w = (w, pos 0)

  abbrev pub tracker_fini : W → W
  tracker_fini w = w
