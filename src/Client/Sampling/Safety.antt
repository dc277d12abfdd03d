-- ===== src/Client/Sampling/Safety.antt =====
-- No series of interrupts and writes of pids leaves the memory of the client module.
use pmu_min_suite.Prelude.{
  ℕ, ◌<◌, ◌≡◌, ◌≢◌, refl, sym, ap, ◌∙◌, inl, inr, arith, Option, none, some, Option-cases,
  Bool-cases, ◌==◌, ==_false, ==_iff,
}
use mathlib.Core.Option.{some-injective}
use mathlib.Core.Path.{subst}
use native.Mathlib.Decide.{ℕ_discrete}
use pmu_min_suite.Clist.Contract.{Clist}
use pmu_min_suite.Tracker.Task.{Task}
use pmu_min_suite.Tracker.Contract.{Tracker, or_null}
use pmu_min_suite.Tracker.Wrappers.Trace
use pmu_min_suite.Client.Pmu.{Settings}
use pmu_min_suite.Client.Pmi.{PmcsData, ProcData, Machine, pmi_handler}
use pmu_min_suite.Client.Attach.{sample_of}
use pmu_min_suite.Client.Attach.Lifetime.{length-sample_of}
use pmu_min_suite.Client.Buffering.Heap.{Heap}
use pmu_min_suite.Client.Buffering.Samples.{AllHold, write_sample-AllHold}
use pmu_min_suite.Client.Sampling.{
  Sampler, write_on, data_of, stored, machine_of, after_interrupt, interrupt,
}
use pmu_min_suite.Client.Sampling.Outcome.{HasSizes, FitsSample, pmi_handler_outcome}

module _ (T : Clist) (R : Tracker) (tasks : Trace.World) (n : ℕ) where
  -- The tracker is between two operations; each of the `n` processors has a list that takes a sample;
  -- what the tracker gives for a task of the system is NULL or a structure that is there, of that task
  -- alone; each structure has its arrays, and is that of a task of the system.
  pub record IsSampling (x : Sampler T R) : Type 0 where
    pub ready : R.Ready x.world.tracker
    pub buffers : AllHold T n 88 x.buffers x.world.memory.clists
    pub in_memory :
        (t : Task) (proc : ℕ)
        → tasks.Has t
        → R.lookup x.world.tracker t ≡ some proc
        → proc ≢ 0
        → (d : ProcData) × (x.world.memory.procs proc ≡ some d)
    pub apart :
        (t u : Task) (proc : ℕ)
        → tasks.Has t
        → tasks.Has u
        → R.lookup x.world.tracker t ≡ some proc
        → R.lookup x.world.tracker u ≡ some proc
        → proc ≢ 0
        → t.pid ≡ u.pid
    pub sized : (proc : ℕ) (d : ProcData) → x.world.memory.procs proc ≡ some d → HasSizes d.pmcs
    pub owned :
        (proc : ℕ) (d : ProcData)
        → x.world.memory.procs proc ≡ some d
        → (proc ≢ 0) × ((t : Task) × tasks.Has t × (R.lookup x.world.tracker t ≡ some proc))

  stored-some :
      (procs : ℕ → Option ProcData) (proc k : ℕ) (o : Option ProcData) (d : ProcData)
      → procs k ≡ some d
      → (d' : ProcData) × (stored T R procs proc o k ≡ some d')
  stored-some procs proc k none d e = (d, e)
  stored-some procs proc k (some new) d e = elim (Bool-cases (proc == k)) [
    | inl same ↦ (new, rw same refl)
    | inr other ↦ (d, rw other e)
  ]

  stored-sized :
      (procs : ℕ → Option ProcData) (proc k : ℕ) (o : Option ProcData) (d : ProcData)
      → ((k' : ℕ) (d' : ProcData) → procs k' ≡ some d' → HasSizes d'.pmcs)
      → ((d' : ProcData) → o ≡ some d' → HasSizes d'.pmcs)
      → stored T R procs proc o k ≡ some d
      → HasSizes d.pmcs
  stored-sized procs proc k none d old new e = old k d e
  stored-sized procs proc k (some p) d old new e = elim (Bool-cases (proc == k)) [
    | inl same ↦ new d (rw same at e)
    | inr other ↦ old k d (rw other at e)
  ]

  stored-before :
      (procs : ℕ → Option ProcData) (proc k : ℕ) (o : Option ProcData) (d : ProcData)
      → ((new : ProcData) → o ≡ some new → (d' : ProcData) × (procs proc ≡ some d'))
      → stored T R procs proc o k ≡ some d
      → (d' : ProcData) × (procs k ≡ some d')
  stored-before procs proc k none d there e = (d, e)
  stored-before procs proc k (some p) d there e = elim (Bool-cases (proc == k)) [
    | inl same ↦
        subst (λ k'. (d' : ProcData) × (procs k' ≡ some d')) ((==_iff proc k).0 same) (there p refl)
    | inr other ↦ (d, rw other at e)
  ]

  -- What `data_of` gives, and then the handler leaves: NULL, or a structure with its arrays whose
  -- place is in memory.
  abbrev Found : Sampler T R → Task → Option ProcData → Type 0
  Found x task o =
      (d : ProcData)
      → o ≡ some d
      → HasSizes d.pmcs
        × ((d' : ProcData) × (x.world.memory.procs (R.query_data_tracker x.world.tracker task)
              ≡ some d'))

  settle :
      (x : Sampler T R) (cpu : ℕ) (task : Task) (m : Machine (Option (Heap T))) (clists : Heap T)
      → IsSampling x
      → AllHold T n 88 x.buffers clists
      → Found x task m.proc_data
      → IsSampling (after_interrupt T R x cpu task m clists)
  settle x cpu task m clists h hold new = record {
    ready = h.ready;
    buffers = hold;
    in_memory = λ t proc has e ne.
        let (d, ed) = h.in_memory t proc has e ne in
        stored-some x.world.memory.procs (R.query_data_tracker x.world.tracker task) proc
          m.proc_data d ed;
    apart = h.apart;
    sized = λ proc d e.
        stored-sized x.world.memory.procs (R.query_data_tracker x.world.tracker task) proc
          m.proc_data d h.sized (λ d' e'. (new d' e').0) e;
    owned = λ proc d e.
        let (d', ed') =
          stored-before x.world.memory.procs (R.query_data_tracker x.world.tracker task) proc
            m.proc_data d (λ d' e'. (new d' e').1) e in
        h.owned proc d' ed';
  }

  data_of_lem :
      (x : Sampler T R) (task : Task)
      → IsSampling x
      → tasks.Has task
      → (o : Option ProcData) × (data_of T R x.world task ≡ some o) × Found x task o
  unfolding data_of
  data_of_lem x task h has = elim (Option-cases (R.lookup x.world.tracker task)) [
    | inl e ↦ (none, rw (asked e) refl, λ d absent. cc)
    | inr (proc, e) ↦ elim (ℕ_discrete proc 0) [
      | yes null ↦ (none, rw (asked e, null) refl, λ d absent. cc)
      | no nonzero ↦
          let (d, ed) = h.in_memory task proc has e nonzero in
          (
            some d,
            rw (asked e, ==_false proc 0 nonzero, ed) refl,
            λ d' same. (h.sized proc d' (ed ∙ same), rw (asked e) (d, ed)),
          )
    ]
  ]
    where
      asked :
          {o : Option ℕ}
          → R.lookup x.world.tracker task ≡ o
          → R.query_data_tracker x.world.tracker task ≡ or_null o
      asked e = R.query_data_lem x.world.tracker task h.ready ∙ ap or_null e

  -- What the interrupt does, from what the handler does.
  interrupt-some :
      (s : Settings) (x : Sampler T R) (cpu : ℕ) (task : Task) (o : Option ProcData)
      (m : Machine (Option (Heap T))) (k : ℕ) (clists : Heap T)
      → data_of T R x.world task ≡ some o
      → pmi_handler (write_on T R x.buffers cpu) s (machine_of T R x cpu o) ≡ some (m, k)
      → m.world ≡ some clists
      → interrupt T R s x cpu task ≡ some (after_interrupt T R x cpu task m clists)
  unfolding interrupt
  interrupt-some s x cpu task o m k clists ed em ew = rw (ed, em, ew, interrupt) refl

  -- What a sample leaves in memory.
  sample-AllHold :
      (x : Sampler T R) (cpu clist : ℕ) (d : PmcsData)
      → IsSampling x
      → cpu < n
      → HasSizes d
      → (clists : Heap T) × (write_on T R x.buffers cpu clist d (some x.world.memory.clists)
          ≡ some clists)
        × AllHold T n 88 x.buffers clists
  sample-AllHold x cpu clist d h lt sizes =
      write_sample-AllHold T n 88 cpu x.buffers x.world.memory.clists (sample_of d) h.buffers lt
        (omega (arith, length-sample_of d sizes.fixed sizes.general))

  -- An interrupt on one of the processors while a task of the system runs.
  pub interrupt-IsSampling :
      (s : Settings) (x : Sampler T R) (cpu : ℕ) (task : Task)
      → FitsSample s
      → IsSampling x
      → cpu < n
      → tasks.Has task
      → (x' : Sampler T R) × (interrupt T R s x cpu task ≡ some x') × IsSampling x'
  interrupt-IsSampling s x cpu task fits h lt has =
      let (o, eo, found) = data_of_lem x task h has in
      let (m, k, em, outcome) =
        pmi_handler_outcome (write_on T R x.buffers cpu) s (machine_of T R x cpu o) fits
          (λ d e. (found d e).0) in
      elim outcome [
        | inl kept ↦ (
          after_interrupt T R x cpu task m x.world.memory.clists,
          interrupt-some s x cpu task o m k x.world.memory.clists eo em kept.same_world,
          settle x cpu task m x.world.memory.clists h h.buffers
              (λ d e. found d (sym kept.same_data ∙ e)),
        )
        | inr taken ↦
            let (clists, ew, hold) =
              sample-AllHold x cpu taken.before.clist taken.taken h lt taken.sizes in
            (
              after_interrupt T R x cpu task m clists,
              interrupt-some s x cpu task o m k clists eo em (taken.is_written ∙ ew),
              settle x cpu task m clists h hold (λ d e. (
                rebuilt taken.before taken.taken d (sym taken.is_stored ∙ e) taken.sizes,
                (found taken.before taken.was_there).1,
              )),
            )
      ]
    where
      rebuilt :
          (before : ProcData) (taken : PmcsData) (d : ProcData)
          → some (record before { pmcs = taken }) ≡ some d
          → HasSizes taken
          → HasSizes d.pmcs
      rebuilt before taken d e sizes =
          subst (λ (p : ProcData). HasSizes p.pmcs) (some-injective _ _ e) sizes
