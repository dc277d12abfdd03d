-- ===== src/Hook/Handlers/Agree.antt =====
-- The handlers of system_hook_tracep.c and system_hook_kprobe.c on the same events.
use pmu_min_suite.Prelude.{ℕ, ◌≡◌, Bool, if◌then◌else◌, ltb, not, ◌&&◌, arith}
use pmu_min_suite.Prelude.References.{Refs, get}
use pmu_min_suite.Hook.{Callback, Shook, start_handler, stop_handler}
use pmu_min_suite.Hook.Handlers.{
  Args, args_sched_in, args_proc_fork, args_proc_exit, whook_sched_in, whook_proc_fork,
  whook_proc_exit,
}

-- The module is enabled and is not being unmounted.
abbrev pub is_open : Shook → Bool
is_open s = s.shook_enabled && not (ltb 1 s.unmounting)

-- One more reference on a pid and one more on a task.
abbrev pub counted : Refs → ℕ → ℕ → Refs
counted refs pid task = record { pids = get refs.pids pid; tasks = get refs.tasks task }

module _ {K : Type 0} (invoke : Callback → Args → K → K) (s : Shook) (k : K) where
  -- Each tracepoint handler calls its own callback, once, if the gate is open, and does nothing if
  -- it is shut; in both cases the state of the module is as before.
  whook_lem :
      (data_ptr : ℕ) (preempt : Bool) (p q : ℕ)
      → (whook_sched_in invoke (s, k) data_ptr preempt p q ≡ (
        s,
        if is_open s then invoke s.hook_sched_in (args_sched_in data_ptr preempt p q) k else k,
      ))
        × (whook_proc_fork invoke (s, k) data_ptr p q
            ≡ (s, if is_open s then invoke s.hook_proc_fork (args_proc_fork data_ptr p q) k else k))
        × (whook_proc_exit invoke (s, k) data_ptr p
            ≡ (s, if is_open s then invoke s.hook_proc_exit (args_proc_exit data_ptr p) k else k))
  unfolding whook_sched_in whook_proc_fork whook_proc_exit start_handler stop_handler
  whook_lem data_ptr preempt p q = (ground arith, ground arith, ground arith)
