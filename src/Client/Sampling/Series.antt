-- ===== src/Client/Sampling/Series.antt =====
-- Series of interrupts, writes of pids, forks, exits and overflows in the client module.
use pmu_min_suite.Prelude.{ℕ, ◌<◌, ◌≡◌, refl, true, false, none, some, List, [], ◌∷◌}
use pmu_min_suite.Prelude.Family.{update}
use pmu_min_suite.Clist.Contract.{Clist}
use pmu_min_suite.Tracker.Contract.{Tracker}
use pmu_min_suite.Tracker.Wrappers.Trace
use pmu_min_suite.Client.Pmu.{Settings}
use pmu_min_suite.Client.Pmi.{ProcData}
use pmu_min_suite.Client.Sampling.{
  Sampler, Event, interrupts, registers, forks, exits, overflows, happen, happen_all,
}
use pmu_min_suite.Client.Sampling.Outcome.{FitsSample}
use pmu_min_suite.Client.Sampling.Safety.{IsSampling, interrupt-IsSampling}
use pmu_min_suite.Client.Sampling.Entries.{IsFresh}
use pmu_min_suite.Client.Sampling.Exits.{exits-IsSampling}
use pmu_min_suite.Client.Sampling.Registering.{IsAnswer, registers-IsSampling, forks-IsSampling}

module _ (T : Clist) (R : Tracker) (tasks : Trace.World) (n : ℕ) where
  -- An event of the system: its tasks are of the system and its processors below `n`, a task that
  -- enters the tracker is not tracked and finds the memory for its entry, and its structure is new, or
  -- NULL.
  abbrev pub Allowed : Sampler T R → Event T R → Type 0
  Allowed x (interrupts cpu task) = (cpu < n) × tasks.Has task
  Allowed x (registers api count) = IsAnswer T R tasks n x api
  Allowed x (forks alloc kmalloc parent child) =
      tasks.Has child
      × (alloc ≡ true)
      × (R.lookup x.world.tracker child ≡ none)
      × ((proc : ℕ) (held : ProcData) → kmalloc ≡ some (proc, held) → IsFresh T R x proc held)
  Allowed x (exits p) = tasks.Has p
  Allowed x (overflows cpu status) = Unit

  abbrev pub AllAllowed : Settings → Sampler T R → List (Event T R) → Type 0
  AllAllowed s x [] = Unit
  AllAllowed s x (e ∷ es) =
      Allowed x e × ((x' : Sampler T R) → happen T R s x e ≡ some x' → AllAllowed s x' es)

  happen-IsSampling :
      (s : Settings) (x : Sampler T R) (e : Event T R)
      → FitsSample s
      → IsSampling T R tasks n x
      → Allowed x e
      → (x' : Sampler T R) × (happen T R s x e ≡ some x') × IsSampling T R tasks n x'
  unfolding happen
  happen-IsSampling s x (interrupts cpu task) fits h a =
      interrupt-IsSampling T R tasks n s x cpu task fits h a.0 a.1
  happen-IsSampling s x (registers api count) fits h a =
      registers-IsSampling T R tasks n s x api count h a
  happen-IsSampling s x (forks true kmalloc parent child) fits h (has, found, absent, gives) =
      forks-IsSampling T R tasks n s x kmalloc parent child h has absent gives
  happen-IsSampling s x (forks false kmalloc parent child) fits h (has, found, absent, gives) = cc
  happen-IsSampling s x (exits p) fits h has = exits-IsSampling T R tasks n s x p h has
  happen-IsSampling s x (overflows cpu status) fits h a = (
    record x { cpus = update x.cpus cpu (record (x.cpus cpu) { global_status = status }) },
    refl,
    record {
      ready = h.ready;
      buffers = h.buffers;
      in_memory = h.in_memory;
      apart = h.apart;
      sized = h.sized;
      owned = h.owned;
    },
  )

  -- For every tracker and every list: if the settings fit a sample and, at the start, the tracker is
  -- between two operations, the lists of the processors take samples and the structures in memory, with
  -- their arrays, are those of the tracked tasks, one for each at most, then in no series of interrupts,
  -- writes of pids, forks, exits and overflows of the system does the module use or free a structure
  -- that is not there or leave the bounds of an array or a list, and afterwards the same holds of the
  -- tracker, the lists and the structures; the series may hold any processors and tasks in any order,
  -- as long as each task that enters the tracker is not tracked, finds the memory for its entry, and
  -- gets a new structure with its arrays at a canonical address, or none.
  pub happen_all-IsSampling :
      (s : Settings) (es : List (Event T R)) (x : Sampler T R)
      → FitsSample s
      → IsSampling T R tasks n x
      → AllAllowed s x es
      → (x' : Sampler T R) × (happen_all T R s x es ≡ some x') × IsSampling T R tasks n x'
  unfolding happen_all
  happen_all-IsSampling s [] x fits h a = (x, refl, h)
  happen_all-IsSampling s (e ∷ es) x fits h a =
      let (x', step, h') = happen-IsSampling s x e fits h a.0 in
      let (x'', rest, h'') = happen_all-IsSampling s es x' fits h' (a.1 x' step) in
      (x'', rw (step, happen_all) rest, h'')
