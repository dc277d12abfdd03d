-- ===== src/Client/Sampling.antt =====
-- The client module at work: the interrupt of client/pmi.c on a processor while a task runs, over any
-- tracker, with the buffers of client/buffering/bcpu.c over any list; and, between interrupts, the
-- write of a pid of client/device/proc_processes.c and the forks and exits of ptracker.c. With bcpu.c,
-- `buffering_dynamic_init` and `buffering_dynamic_fini` are those of client/buffering/buffering.c.
pub mod Outcome
pub mod Safety
pub mod Entries
pub mod Exits
pub mod Registering
pub mod Series
use pmu_min_suite.Prelude.{ℕ, Bool, Option, none, some, ◌==◌, if◌then◌else◌, List, [], ◌∷◌}
use pmu_min_suite.Prelude.Family.{update}
use pmu_min_suite.Clist.Contract.{Clist}
use pmu_min_suite.Tracker.Task.{Task}
use pmu_min_suite.Tracker.Contract.{Tracker}
use pmu_min_suite.Tracker.Wrappers.{track_fork_wrapper, track_exit_wrapper}
use pmu_min_suite.Client.Pmu.{Settings, Registers}
use pmu_min_suite.Client.Pmi.{PmcsData, ProcData, Machine, pmi_handler}
use pmu_min_suite.Client.Attach.{Memory, sample_of}
use pmu_min_suite.Client.Buffering.{Bcpu}
use pmu_min_suite.Client.Buffering.Default.{buffering_dynamic_init, buffering_dynamic_fini}
use pmu_min_suite.Client.Buffering.Heap.{Heap}
use pmu_min_suite.Client.Buffering.Samples.{write_sample}
use pmu_min_suite.Client.Processes.{PidApi, World, processes_write}

module _ (T : Clist) (R : Tracker) where
  -- What the module has, and the registers and the counter of interrupts of each processor.
  pub record Sampler : Type 0 where
    pub world : World T R
    pub buffers : Bcpu
    pub cpus : ℕ → Registers
    pub pmi_counters : ℕ → ℕ

  -- `write_sample` on a processor; `none` once a write had no defined behaviour. The list is that of
  -- the processor, and the address in `proc_data` is not looked at.
  abbrev pub write_on : Bcpu → ℕ → ℕ → PmcsData → Option (Heap T) → Option (Heap T)
  write_on b cpu clist d none = none
  write_on b cpu clist d (some heap) = write_sample T b heap cpu (sample_of d)

  -- What `query_data_tracker` points to; `none` is a pointer to a structure that is not there.
  unfoldable pub data_of : World T R → Task → Option (Option ProcData)
  data_of w task =
      if R.query_data_tracker w.tracker task == 0
      then some none
      else elim (w.memory.procs (R.query_data_tracker w.tracker task)) [
        | none ↦ none
        | some d ↦ some (some d)
      ]

  -- The structure after the handler has written to it through the pointer `proc`.
  abbrev pub stored : (ℕ → Option ProcData) → ℕ → Option ProcData → ℕ → Option ProcData
  stored procs proc none = procs
  stored procs proc (some d) = update procs proc (some d)

  abbrev pub machine_of : Sampler → ℕ → Option ProcData → Machine (Option (Heap T))
  machine_of x cpu found = record {
    regs = x.cpus cpu;
    pmi_counter = x.pmi_counters cpu;
    proc_data = found;
    world = some x.world.memory.clists;
  }

  abbrev pub after_interrupt : Sampler → ℕ → Task → Machine (Option (Heap T)) → Heap T → Sampler
  after_interrupt x cpu task m clists = record x {
    world = record x.world {
      memory = record {
        clists = clists;
        procs = stored x.world.memory.procs (R.query_data_tracker x.world.tracker task) m.proc_data;
      };
    };
    cpus = update x.cpus cpu m.regs;
    pmi_counters = update x.pmi_counters cpu m.pmi_counter;
  }

  -- The interrupt on the processor `cpu` while `task` runs there.
  unfoldable pub interrupt : Settings → Sampler → ℕ → Task → Option Sampler
  interrupt s x cpu task = elim (data_of x.world task) [
    | none ↦ none
    | some found ↦ elim (pmi_handler (write_on x.buffers cpu) s (machine_of x cpu found)) [
      | none ↦ none
      | some (m, handled) ↦ elim m.world [
        | none ↦ none
        | some clists ↦ some (after_interrupt x cpu task m clists)
      ]
    ]
  ]

  -- `client_hook_on_attach` and `client_hook_on_detach` on the structures in memory, `none` once
  -- something that is not there was freed.
  abbrev pub attach :
      Option (ℕ × ProcData) → Option (ℕ → Option ProcData) → Option (ℕ → Option ProcData) × ℕ
  attach kmalloc none = (none, 0)
  attach none (some procs) = (some procs, 0)
  attach (some (proc, held)) (some procs) =
      let (procs', clist) = buffering_dynamic_init procs in
      (some (update procs' proc (some (record held { clist = clist }))), proc)

  abbrev pub detach : ℕ → Option (ℕ → Option ProcData) → Option (ℕ → Option ProcData)
  detach proc none = none
  detach proc (some procs) = if proc == 0 then some procs else elim (procs proc) [
    | none ↦ none
    | some d ↦ some (update (buffering_dynamic_fini procs) proc none)
  ]

  -- The sampler after a hook on a fork or an exit.
  abbrev pub hooked : Sampler → R.State × Option (ℕ → Option ProcData) → Option Sampler
  hooked x (tracker, none) = none
  hooked x (tracker, some procs) = some (record x {
    world = record x.world { tracker = tracker; memory = record x.world.memory { procs = procs } };
  })

  -- What happens to the module, one after the other. A fork has the answers to its two requests of
  -- memory.
  pub data Event : Type 0 where
    interrupts : ℕ → Task → Event
    registers : PidApi → ℕ → Event
    forks : Bool → Option (ℕ × ProcData) → Task → Task → Event
    exits : Task → Event
    overflows : ℕ → ℕ → Event  -- the processor raises its status

  unfoldable pub happen : Settings → Sampler → Event → Option Sampler
  happen s x (interrupts cpu task) = interrupt s x cpu task
  happen s x (registers api count) =
      some (record x { world = (processes_write T R api x.world count).0 })
  happen s x (forks alloc kmalloc parent child) = hooked x (
      track_fork_wrapper R (attach kmalloc) detach alloc
        (x.world.tracker, some x.world.memory.procs) parent child)
  happen s x (exits p) =
      hooked x
        (track_exit_wrapper R (attach none) detach (x.world.tracker, some x.world.memory.procs) p)
  happen s x (overflows cpu status) =
      some (record x { cpus = update x.cpus cpu (record (x.cpus cpu) { global_status = status }) })

  unfoldable pub happen_all : Settings → Sampler → List Event → Option Sampler
  happen_all s x [] = some x
  happen_all s x (e ∷ es) = elim (happen s x e) [ none ↦ none | some x' ↦ happen_all s x' es ]
