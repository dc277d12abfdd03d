-- ===== src/Hook/Handlers.antt =====
-- The handlers through which the kernel enters the hook module: those of system_hook_tracep.c on
-- tracepoints, and those of system_hook_kprobe.c on probed functions. What a callback does to the
-- rest of the kernel, of type `K`, is the parameter `invoke`.
pub mod Agree
use pmu_min_suite.Prelude.{ℕ, Bool, true, false, Option, none, some, if◌then◌else◌}
use pmu_min_suite.Prelude.References.{Refs, get}
use pmu_min_suite.Hook.{Callback, Shook, start_handler, stop_handler}

-- The arguments of a call through `hook_sched_in`, `hook_proc_fork` or `hook_proc_exit`. Pointers
-- are addresses.
pub data Args : Type 0 where
  args_sched_in : ℕ → Bool → ℕ → ℕ → Args
  args_proc_fork : ℕ → ℕ → ℕ → Args
  args_proc_exit : ℕ → ℕ → Args

module _ {K : Type 0} (invoke : Callback → Args → K → K) where
  unfoldable pub whook_sched_in : Shook × K → ℕ → Bool → ℕ → ℕ → Shook × K
  whook_sched_in (s, k) data_ptr preempt prev next =
      let (s', started) = start_handler s in
      if started
      then (stop_handler s', invoke s'.hook_sched_in (args_sched_in data_ptr preempt prev next) k)
      else (s', k)

  unfoldable pub whook_proc_fork : Shook × K → ℕ → ℕ → ℕ → Shook × K
  whook_proc_fork (s, k) data_ptr parent child =
      let (s', started) = start_handler s in
      if started
      then (stop_handler s', invoke s'.hook_proc_fork (args_proc_fork data_ptr parent child) k)
      else (s', k)

  unfoldable pub whook_proc_exit : Shook × K → ℕ → ℕ → Shook × K
  whook_proc_exit (s, k) data_ptr p =
      let (s', started) = start_handler s in
      if started
      then (stop_handler s', invoke s'.hook_proc_exit (args_proc_exit data_ptr p) k)
      else (s', k)

  -- The word that a probe instance keeps from the entry of `finish_task_switch`, whose first
  -- argument is in `di`, to its return.
  pub ctxs_entry_handler : ℕ → ℕ
  ctxs_entry_handler di = di

  pub ctxs_handler : Shook × K → ℕ → ℕ → Shook × K
  ctxs_handler (s, k) prev current =
      let (s', started) = start_handler s in
      if started
      then (stop_handler s', invoke s'.hook_sched_in (args_sched_in 0 false prev current) k)
      else (s', k)

  pub exit_entry_handler : Shook × K → ℕ → Shook × K
  exit_entry_handler (s, k) current =
      let (s', started) = start_handler s in
      if started
      then (stop_handler s', invoke s'.hook_proc_exit (args_proc_exit 0 current) k)
      else (s', k)

  -- `get_pid_task(find_get_pid(retval), PIDTYPE_PID)` in `fork_handler`: each function counts a
  -- reference on what it gives, and `get_pid_task` of NULL is NULL.
  unfoldable pub child_task : (ℕ → Option ℕ) → (ℕ → Option ℕ) → Refs → ℕ → Refs × ℕ
  child_task find_get_pid pid_task refs retval = elim (find_get_pid retval) [
    | none ↦ (refs, 0)
    | some pid ↦
        let counted = record refs { pids = get refs.pids pid } in
        elim (pid_task pid) [
          | none ↦ (counted, 0)
          | some task ↦ (record counted { tasks = get refs.tasks task }, task)
        ]
  ]

  -- `is_syscall_success` and the return value come from the registers, and `find_get_pid` and
  -- `pid_task` are what the kernel finds. The references are never put.
  pub fork_handler :
      (ℕ → Option ℕ) → (ℕ → Option ℕ) → Shook × K × Refs → Bool → ℕ → ℕ → Shook × K × Refs
  fork_handler find_get_pid pid_task (s, k, refs) success retval current =
      let (s', started) = start_handler s in
      let (refs', ntask) = child_task find_get_pid pid_task refs retval in
      if started
      then if success
        then (stop_handler s', invoke s'.hook_proc_fork (args_proc_fork 0 current ntask) k, refs')
        else (stop_handler s', k, refs)
      else (s', k, refs)
