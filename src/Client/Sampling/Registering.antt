-- ===== src/Client/Sampling/Registering.antt =====
-- The writes of pids and the forks that register a task in the client module.
use pmu_min_suite.Prelude.{
  ℕ, ◌≡◌, refl, sym, ◌⊎◌, inl, inr, true, Option, none, some, Option-cases, Bool-cases, is_err,
}
use mathlib.Core.Path.{subst}
use pmu_min_suite.Prelude.Family.{update}
use pmu_min_suite.Clist.Contract.{Clist}
use pmu_min_suite.Tracker.Task.{Task}
use pmu_min_suite.Tracker.Contract.{Tracker}
use pmu_min_suite.Tracker.Wrappers.{track_fork_wrapper}
use pmu_min_suite.Tracker.Wrappers.Trace
use pmu_min_suite.Client.Pmu.{Settings}
use pmu_min_suite.Client.Pmi.{ProcData}
use pmu_min_suite.Client.Attach.{register_process}
use pmu_min_suite.Prelude.References.{Refs, get}
use pmu_min_suite.Client.Processes.{
  PidApi, World, put_task_struct, find_task, register_found, processes_write,
}
use pmu_min_suite.Client.Sampling.{Sampler, forks, registers, happen}
use pmu_min_suite.Client.Sampling.Safety.{IsSampling}
use pmu_min_suite.Client.Sampling.Entries.{
  entries, IsFresh, added-IsSampling, added_null-IsSampling,
}

module _ (T : Clist) (R : Tracker) (tasks : Trace.World) (n : ℕ) where
  -- The state after a write that registers nothing, and after one that registers a task.
  abbrev unchanged : World T R → Refs → World T R
  unchanged w refs = record { refs = refs; tracker = w.tracker; memory = w.memory }

  abbrev registered : World T R → Refs → Task → ℕ → ProcData → World T R
  registered w refs task proc held = record {
    refs = refs;
    tracker = (R.tracker_add true w.tracker task proc).0;
    memory = record w.memory { procs = update w.memory.procs proc (some held) };
  }

  -- What a write leaves.
  Written : PidApi → World T R → World T R → Type 0
  Written api w w' =
      ((refs : Refs) × (w' ≡ unchanged w refs))
      ⊎ ((nr : ℕ) × (pid : ℕ) × (task : Task) × (proc : ℕ) × (held : ProcData) × (refs : Refs)
          × (api.find_get_pid nr ≡ some pid)
          × (api.pid_task pid ≡ some task)
          × (api.kmalloc ≡ some (proc, held))
          × (w' ≡ registered w refs task proc held))

  processes_write_cases :
      (api : PidApi) (w : World T R) (count : ℕ)
      → api.alloc ≡ true
      → Written api w (processes_write T R api w count).0
  unfolding Written processes_write find_task register_found register_process
  processes_write_cases api w count al = elim (Bool-cases (is_err api.kstrtouint_from_user.0)) [
    | inl bad ↦ inl (w.refs, rw bad refl)
    | inr ok ↦ elim (Option-cases (api.find_get_pid api.kstrtouint_from_user.1)) [
      | inl e ↦ inl (w.refs, rw (ok, e, find_task) refl)
      | inr (pid, e) ↦ elim (Option-cases (api.pid_task pid)) [
        | inl t ↦ inl (record w.refs { pids = get w.refs.pids pid }, rw (ok, e, t, find_task) refl)
        | inr (task, t) ↦ elim (Option-cases api.kmalloc) [
          | inl k ↦
              inl (settled w.refs pid task, rw (ok, e, t, k, find_task, register_process) refl)
          | inr ((proc, held), k) ↦ inr (
            api.kstrtouint_from_user.1,
            pid,
            task,
            proc,
            held,
            settled w.refs pid task,
            e,
            t,
            k,
            rw (ok, e, t, k, al, find_task, register_process) refl,
          )
        ]
      ]
    ]
  ]
    where
      settled : Refs → ℕ → Task → Refs
      settled refs pid task =
          put_task_struct (record { pids = get refs.pids pid; tasks = get refs.tasks task.addr })
            task

  -- What the kernel answers to a write of a pid: memory for the entry of the tracker, and a new
  -- structure, if any, and a task of the system which is not tracked, if any.
  pub record IsAnswer (x : Sampler T R) (api : PidApi) : Type 0 where
    pub finds_memory : api.alloc ≡ true
    pub gives :
        (proc : ℕ) (held : ProcData) → api.kmalloc ≡ some (proc, held) → IsFresh T R x proc held
    pub finds_task :
        (nr pid : ℕ) (task : Task)
        → api.find_get_pid nr ≡ some pid
        → api.pid_task pid ≡ some task
        → tasks.Has task × (R.lookup x.world.tracker task ≡ none)

  pub registers-IsSampling :
      (s : Settings) (x : Sampler T R) (api : PidApi) (count : ℕ)
      → IsSampling T R tasks n x
      → IsAnswer x api
      → (x' : Sampler T R) × (happen T R s x (registers api count) ≡ some x')
        × IsSampling T R tasks n x'
  unfolding Written happen
  registers-IsSampling s x api count h a = (
    record x { world = (processes_write T R api x.world count).0 },
    refl,
    elim (processes_write_cases api x.world count a.finds_memory) [
      | inl (refs, e) ↦
          subst (λ w. IsSampling T R tasks n (record x { world = w })) (sym e)
            (record {
              ready = h.ready;
              buffers = h.buffers;
              in_memory = h.in_memory;
              apart = h.apart;
              sized = h.sized;
              owned = h.owned;
            })
      | inr (nr, pid, task, proc, held, refs, ef, et, ek, e) ↦
          let (has, absent) = a.finds_task nr pid task ef et in
          subst (λ w. IsSampling T R tasks n (record x { world = w })) (sym e)
            (added-IsSampling T R tasks n x refs task proc held h has absent (a.gives proc held ek))
    ],
  )

  -- A fork of a task that may be tracked or not, with a structure for the child or without.
  pub forks-IsSampling :
      (s : Settings) (x : Sampler T R) (kmalloc : Option (ℕ × ProcData)) (parent child : Task)
      → IsSampling T R tasks n x
      → tasks.Has child
      → R.lookup x.world.tracker child ≡ none
      → ((proc : ℕ) (held : ProcData) → kmalloc ≡ some (proc, held) → IsFresh T R x proc held)
      → (x' : Sampler T R) × (happen T R s x (forks true kmalloc parent child) ≡ some x')
        × IsSampling T R tasks n x'
  unfolding happen track_fork_wrapper
  forks-IsSampling s x none parent child h has absent gives =
      elim (Bool-cases (R.query_tracker x.world.tracker parent)) [
        | inl tracked ↦ (
          entries T R x x.world.refs (R.tracker_add true x.world.tracker child 0).0
              x.world.memory.procs,
          rw tracked refl,
          added_null-IsSampling T R tasks n x x.world.refs child h has absent,
        )
        | inr other ↦ (x, rw other refl, h)
      ]
  forks-IsSampling s x (some (proc, held)) parent child h has absent gives =
      elim (Bool-cases (R.query_tracker x.world.tracker parent)) [
        | inl tracked ↦ (
          entries T R x x.world.refs (R.tracker_add true x.world.tracker child proc).0
              (update x.world.memory.procs proc (some (record held { clist = 0 }))),
          rw tracked refl,
          added-IsSampling T R tasks n x x.world.refs child proc (record held { clist = 0 }) h has
              absent (gives proc held refl),
        )
        | inr other ↦ (x, rw other refl, h)
      ]
