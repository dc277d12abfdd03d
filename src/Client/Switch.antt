-- ===== src/Client/Switch.antt =====
-- client/client_module.c: the callback at a switch between tasks, on the registers of one processor.
-- `query_tracker` is an argument, since it is the tracker that the module is linked with.
pub mod Filter
use pmu_min_suite.Prelude.{Bool, true, false, if◌then◌else◌, List, [], ◌∷◌}
use pmu_min_suite.Tracker.Task.{Task}
use pmu_min_suite.Client.Pmu.{Settings, Registers, enable_pmcs_local, disable_pmcs_local}

module _ (query_tracker : Task → Bool) where
  unfoldable pub client_hook_sched_in : Settings → Registers → Task → Task → Registers
  client_hook_sched_in s r prev next =
      if s.thread_filter
      then if query_tracker prev
        then if query_tracker next then r else disable_pmcs_local r
        else if query_tracker next
        then enable_pmcs_local s r
        else r
      else r

  -- The tasks that run on the processor after `prev`, one after the other.
  unfoldable pub switches : Settings → Registers → Task → List Task → Registers
  switches s r prev [] = r
  switches s r prev (next ∷ rest) = switches s (client_hook_sched_in s r prev next) next rest

abbrev pub last : Task → List Task → Task
last t [] = t
last t (u ∷ rest) = last u rest
