-- ===== src/Client/Processes/References.antt =====
-- What a write to the file `processes` of client/device/proc_processes.c does to the references on
-- pids and tasks, and to the tracker.
use pmu_min_suite.Prelude.{
  ℕ, ◌≡◌, refl, true, false, Option, none, some, if◌then◌else◌, is_err, ℤ, arith, Bool-cases,
  Option-cases, inl, inr, ◌∙◌, ap,
}
use pmu_min_suite.Prelude.References.{Refs, get, put}
use pmu_min_suite.Prelude.Family.{update_self}
use pmu_min_suite.Clist.Contract.{Clist}
use pmu_min_suite.Tracker.Task.{Task}
use pmu_min_suite.Tracker.Contract.{Tracker, IsLive, IsCanonical}
use pmu_min_suite.Client.Pmi.{ProcData}
use pmu_min_suite.Client.Attach.{register_process}
use pmu_min_suite.Client.Processes.{PidApi, World, find_task, register_found, processes_write}

-- The references on pids after a write: one more on the pid of the number, if there is such a pid.
abbrev pub pids_after : PidApi → (ℕ → ℕ) → ℕ → ℕ
pids_after api pids =
    if is_err api.kstrtouint_from_user.0
    then pids
    else elim (api.find_get_pid api.kstrtouint_from_user.1) [
      | none ↦ pids
      | some pid ↦ get pids pid
    ]

-- The references after a search that counted those on pids as `pids`.
abbrev found_refs : Refs → (ℕ → ℕ) → Option Task → Refs
found_refs refs pids none = record refs { pids = pids }
found_refs refs pids (some task) = record { pids = pids; tasks = get refs.tasks task.addr }

find_task_lem :
    (api : PidApi) (refs : Refs)
    → is_err api.kstrtouint_from_user.0 ≡ false
    → (found : Option Task) × (find_task api refs api.kstrtouint_from_user.1
        ≡ (found_refs refs (pids_after api refs.pids) found, found))
unfolding find_task
find_task_lem api refs ok = elim (Option-cases (api.find_get_pid api.kstrtouint_from_user.1)) [
  | inl e ↦ (none, rw (ok, e, find_task) refl)
  | inr (pid, e) ↦ elim (Option-cases (api.pid_task pid)) [
    | inl t ↦ (none, rw (ok, e, t, find_task) refl)
    | inr (task, t) ↦ (some task, rw (ok, e, t, find_task) refl)
  ]
]

find_task-some :
    (api : PidApi) (refs : Refs) (pidp pid : ℕ) (task : Task)
    → api.find_get_pid pidp ≡ some pid
    → api.pid_task pid ≡ some task
    → find_task api refs pidp ≡ (found_refs refs (get refs.pids pid) (some task), some task)
unfolding find_task
find_task-some api refs pidp pid task e t = rw (e, t, find_task) refl

put-get : (counts : ℕ → ℕ) (a b : ℕ) → put (get counts a) a b ≡ counts b
put-get counts a b = ground arith

module _ (T : Clist) (R : Tracker) where
  register_found-refs :
      (api : PidApi) (w : World T R) (count : ℕ) (pids : ℕ → ℕ) (found : Option Task)
      → (register_found T R api w count (found_refs w.refs pids found, found)).0.refs.pids ≡ pids
        × ((a : ℕ)
            → (register_found T R api w count (found_refs w.refs pids found, found)).0.refs.tasks a
              ≡ w.refs.tasks a)
  unfolding register_found
  register_found-refs api w count pids none = (refl, λ a. refl)
  register_found-refs api w count pids (some task) = (refl, λ a. put-get w.refs.tasks task.addr a)

  -- On every path a write to the file puts each reference on a task that it got, and puts no reference
  -- on a pid: if the number is the one of a pid, then the write leaves one more reference on it.
  pub processes_write_refs :
      (api : PidApi) (w : World T R) (count : ℕ)
      → ((a : ℕ) → (processes_write T R api w count).0.refs.tasks a ≡ w.refs.tasks a)
        × ((processes_write T R api w count).0.refs.pids ≡ pids_after api w.refs.pids)
  unfolding processes_write
  processes_write_refs api w count = elim (Bool-cases (is_err api.kstrtouint_from_user.0)) [
    | inl bad ↦ rw bad (λ a. refl, refl)
    | inr ok ↦
        let (found, e) = find_task_lem api w.refs ok in
        let (pids, tasks) = register_found-refs api w count (pids_after api w.refs.pids) found in
        (
          λ a. ap (λ (r : World T R × ℤ). r.0.refs.tasks a) (written ok e) ∙ tasks a,
          ap (λ (r : World T R × ℤ). r.0.refs.pids) (written ok e) ∙ pids,
        )
  ]
    where
      written :
          {found : Refs × Option Task}
          → is_err api.kstrtouint_from_user.0 ≡ false
          → find_task api w.refs api.kstrtouint_from_user.1 ≡ found
          → processes_write T R api w count ≡ register_found T R api w count found
      written ok e = rw (ok, e) refl

  -- If the bytes are a number, it is the pid of a live task that the tracker does not have, and memory
  -- is given at a canonical address, then after the write the tracker has the task with the new
  -- structure, and is ready for the next operation.
  pub lookup-processes_write :
      (api : PidApi) (w : World T R) (count pid proc : ℕ) (task : Task) (held : ProcData)
      → is_err api.kstrtouint_from_user.0 ≡ false
      → api.find_get_pid api.kstrtouint_from_user.1 ≡ some pid
      → api.pid_task pid ≡ some task
      → api.kmalloc ≡ some (proc, held)
      → api.alloc ≡ true
      → R.Ready w.tracker
      → IsLive task
      → IsCanonical proc
      → R.lookup w.tracker task ≡ none
      → (R.lookup (processes_write T R api w count).0.tracker task ≡ some proc)
        × R.Ready (processes_write T R api w count).0.tracker
        × ((processes_write T R api w count).0.memory.procs proc ≡ some held)
  unfolding processes_write register_found register_process
  lookup-processes_write api w count pid proc task held ok e t k al ready live canon absent =
      rw
        (
          ok,
          find_task-some api w.refs api.kstrtouint_from_user.1 pid task e t,
          k,
          al,
          register_process,
        )
        (
          R.lookup-add w.tracker task proc ready live canon absent,
          R.add-Ready true w.tracker task proc ready live absent,
          update_self w.memory.procs proc (some held),
        )
