-- ===== src/Client/Processes.antt =====
-- client/device/proc_processes.c: a write of a pid to the file `processes`. The kernel's functions are
-- arguments: `kstrtouint_from_user` gives a code and the number, and `find_get_pid` and
-- `get_pid_task` what is found; each counts a reference on what it gives, a pid or a task by its
-- address.
pub mod References
use pmu_min_suite.Prelude.{ℕ, Bool, Option, none, some, if◌then◌else◌, is_err, ℤ, pos, einval}
use pmu_min_suite.Prelude.References.{Refs, get, put}
use pmu_min_suite.Clist.Contract.{Clist}
use pmu_min_suite.Tracker.Task.{Task}
use pmu_min_suite.Tracker.Contract.{Tracker}
use pmu_min_suite.Client.Pmi.{ProcData}
use pmu_min_suite.Client.Attach.{Memory, register_process}

-- What the kernel answers to one write.
pub record PidApi : Type 0 where
  pub kstrtouint_from_user : ℤ × ℕ
  pub find_get_pid : ℕ → Option ℕ
  pub pid_task : ℕ → Option Task
  pub kmalloc : Option (ℕ × ProcData)
  pub alloc : Bool

-- `get_pid_task(find_get_pid(pidp), PIDTYPE_PID)`; `get_pid_task` of NULL is NULL.
unfoldable pub find_task : PidApi → Refs → ℕ → Refs × Option Task
find_task api refs pidp = elim (api.find_get_pid pidp) [
  | none ↦ (refs, none)
  | some pid ↦
      let counted = record refs { pids = get refs.pids pid } in
      elim (api.pid_task pid) [
        | none ↦ (counted, none)
        | some task ↦ (record counted { tasks = get refs.tasks task.addr }, some task)
      ]
]

-- What follows `register_process`: both ways put the reference on the task.
abbrev pub put_task_struct : Refs → Task → Refs
put_task_struct refs task = record refs { tasks = put refs.tasks task.addr }

module _ (T : Clist) (R : Tracker) where
  pub record World : Type 0 where
    pub refs : Refs
    pub tracker : R.State
    pub memory : Memory T

  -- What follows the search, for the references and the task that it gives.
  unfoldable pub register_found : PidApi → World → ℕ → Refs × Option Task → World × ℤ
  register_found api w count (refs, none) = (record w { refs = refs }, einval)
  register_found api w count (refs, some task) =
      let (state, code) = register_process T R api.kmalloc api.alloc (w.tracker, w.memory) task in
      (
        record { refs = put_task_struct refs task; tracker = state.0; memory = state.1 },
        if is_err code then code else pos count,
      )

  unfoldable pub processes_write : PidApi → World → ℕ → World × ℤ
  processes_write api w count =
      let (err, pidp) = api.kstrtouint_from_user in
      if is_err err then (w, err) else register_found api w count (find_task api w.refs pidp)
