-- ===== src/Client/Sampling/Entries.antt =====
-- A task that enters the tracker or leaves it, in the client module.
use pmu_min_suite.Prelude.{
  ℕ, ◌≡◌, ◌≢◌, refl, sym, ap, ◌∙◌, ◌⊎◌, inl, inr, arith, true, Option, none, some, Bool-cases, ◌==◌,
  ==_iff,
}
use mathlib.Core.Option.{some-injective}
use mathlib.Core.Path.{subst}
use native.Mathlib.Decide.{ℕ_discrete}
use pmu_min_suite.Prelude.Family.{update, update_self}
use pmu_min_suite.Clist.Contract.{Clist}
use pmu_min_suite.Tracker.Task.{Task}
use pmu_min_suite.Tracker.Contract.{Tracker, IsCanonical}
use pmu_min_suite.Tracker.Wrappers.Trace
use pmu_min_suite.Tracker.Wrappers.Trace.{true≢false}
use pmu_min_suite.Client.Pmi.{ProcData}
use pmu_min_suite.Prelude.References.{Refs}
use pmu_min_suite.Client.Sampling.{Sampler}
use pmu_min_suite.Client.Sampling.Outcome.{HasSizes}
use pmu_min_suite.Client.Sampling.Safety.{IsSampling}

pub absurd_some : {A : Type 0} {o : Option A} (d : A) → o ≡ none → o ≡ some d → ⊥
absurd_some d e e' = cc

module _ (T : Clist) (R : Tracker) where
  -- The sampler with another tracker and other structures.
  abbrev pub entries : Sampler T R → Refs → R.State → (ℕ → Option ProcData) → Sampler T R
  entries x refs tracker procs = record x {
    world = record {
      refs = refs;
      tracker = tracker;
      memory = record { clists = x.world.memory.clists; procs = procs };
    };
  }

  -- What `kmalloc` may give: a structure with its arrays, at a canonical address where nothing is.
  abbrev pub IsFresh : Sampler T R → ℕ → ProcData → Type 0
  IsFresh x proc held =
      (proc ≢ 0) × IsCanonical proc × (x.world.memory.procs proc ≡ none) × HasSizes held.pmcs

module _ (T : Clist) (R : Tracker) (tasks : Trace.World) (n : ℕ) where
  update-some :
      (procs : ℕ → Option ProcData) (proc k : ℕ) (held d : ProcData)
      → procs k ≡ some d
      → (d' : ProcData) × (update procs proc (some held) k ≡ some d')
  update-some procs proc k held d e = elim (Bool-cases (proc == k)) [
    | inl same ↦ (held, rw same refl)
    | inr other ↦ (d, rw other e)
  ]

  update-sized :
      (procs : ℕ → Option ProcData) (proc k : ℕ) (held d : ProcData)
      → ((k' : ℕ) (d' : ProcData) → procs k' ≡ some d' → HasSizes d'.pmcs)
      → HasSizes held.pmcs
      → update procs proc (some held) k ≡ some d
      → HasSizes d.pmcs
  update-sized procs proc k held d old sizes e = elim (Bool-cases (proc == k)) [
    | inl same ↦ subst (λ (p : ProcData). HasSizes p.pmcs) (some-injective _ _ (rw same at e)) sizes
    | inr other ↦ old k d (rw other at e)
  ]

  lookup-add_cases :
      (x : Sampler T R) (task t : Task) (proc p : ℕ)
      → IsSampling T R tasks n x
      → tasks.Has task
      → tasks.Has t
      → R.lookup x.world.tracker task ≡ none
      → IsCanonical proc
      → R.lookup (R.tracker_add true x.world.tracker task proc).0 t ≡ some p
      → ((task.pid ≡ t.pid) × (p ≡ proc)) ⊎ (R.lookup x.world.tracker t ≡ some p)
  lookup-add_cases x task t proc p h has has' absent canon e = elim (ℕ_discrete task.pid t.pid) [
    | yes eq ↦
        let same : task ≡ t = tasks.same task t has has' eq in
        inl (
          eq,
          some-injective _ _ (
              sym e
              ∙ subst (λ v. R.lookup (R.tracker_add true x.world.tracker task proc).0 v ≡ some proc)
                  same
                  (R.lookup-add x.world.tracker task proc h.ready (tasks.live task has) canon
                    absent)),
        )
    | no ne ↦ inr (
        sym (
          R.lookup-add_other true x.world.tracker task t proc h.ready
            (tasks.apart task t has has' ne))
        ∙ e)
  ]

  -- The tasks of before are still there.
  lookup-add_old :
      (x : Sampler T R) (task t : Task) (proc p : ℕ)
      → IsSampling T R tasks n x
      → tasks.Has task
      → tasks.Has t
      → R.lookup x.world.tracker task ≡ none
      → R.lookup x.world.tracker t ≡ some p
      → R.lookup (R.tracker_add true x.world.tracker task proc).0 t ≡ some p
  lookup-add_old x task t proc p h has has' absent e = elim (ℕ_discrete task.pid t.pid) [
    | yes eq ↦
        let same : R.lookup x.world.tracker task ≡ R.lookup x.world.tracker t =
          ap (λ v. R.lookup x.world.tracker v) (tasks.same task t has has' eq) in
        absurd (absurd_some p absent (same ∙ e))
    | no ne ↦
        R.lookup-add_other true x.world.tracker task t proc h.ready (tasks.apart task t has has' ne)
        ∙ e
  ]

  -- A place is that of a task of the system, once `task` has `proc`.
  Owned : Sampler T R → Task → ℕ → ℕ → Type 0
  Owned x task proc p =
      (p ≢ 0)
      × ((t : Task) × tasks.Has t
          × (R.lookup (R.tracker_add true x.world.tracker task proc).0 t ≡ some p))

  pub added-IsSampling :
      (x : Sampler T R) (refs : Refs) (task : Task) (proc : ℕ) (held : ProcData)
      → IsSampling T R tasks n x
      → tasks.Has task
      → R.lookup x.world.tracker task ≡ none
      → IsFresh T R x proc held
      → IsSampling T R tasks n (
          entries T R x refs
            (R.tracker_add true x.world.tracker task proc).0
            (update x.world.memory.procs proc (some held)))
  unfolding Owned
  added-IsSampling x refs task proc held h has absent (nonzero, canon, blank, sizes) = record {
    ready = R.add-Ready true x.world.tracker task proc h.ready (tasks.live task has) absent;
    buffers = h.buffers;
    in_memory = λ t p has' e ne. elim (lookup-add_cases x task t proc p h has has' absent canon e) [
      | inl (id, same) ↦ rw same (held, update_self x.world.memory.procs proc (some held))
      | inr before ↦
          let (d, ed) = h.in_memory t p has' before ne in
          update-some x.world.memory.procs proc p held d ed
    ];
    apart = λ t u p has' has'' e e' ne.
        elim (lookup-add_cases x task t proc p h has has' absent canon e) [
          | inl (id, same) ↦ elim (lookup-add_cases x task u proc p h has has'' absent canon e') [
            | inl (id', same') ↦ sym id ∙ id'
            | inr before' ↦ absurd (clash u p has'' before' ne same)
          ]
          | inr before ↦ elim (lookup-add_cases x task u proc p h has has'' absent canon e') [
            | inl (id', same') ↦ absurd (clash t p has' before ne same')
            | inr before' ↦ h.apart t u p has' has'' before before' ne
          ]
        ];
    sized = λ p d e. update-sized x.world.memory.procs proc p held d h.sized sizes e;
    owned = λ p d e. elim (Bool-cases (proc == p)) [
      | inl same ↦
          let id : proc ≡ p = (==_iff proc p).0 same in
          subst (Owned x task proc) id (
            nonzero,
            (
              task,
              has,
              R.lookup-add x.world.tracker task proc h.ready (tasks.live task has) canon absent,
            ),
          )
      | inr other ↦
          let (ne, (t, has', e')) = h.owned p d (rw other at e) in
          (ne, (t, has', lookup-add_old x task t proc p h has has' absent e'))
    ];
  }
    where
      clash :
          (t : Task) (p : ℕ)
          → tasks.Has t
          → R.lookup x.world.tracker t ≡ some p
          → p ≢ 0
          → p ≡ proc
          → ⊥
      clash t p has' e ne same =
          let (d, ed) = h.in_memory t p has' e ne in
          absurd_some d (ap x.world.memory.procs same ∙ blank) ed

  -- With no structure.
  pub added_null-IsSampling :
      (x : Sampler T R) (refs : Refs) (task : Task)
      → IsSampling T R tasks n x
      → tasks.Has task
      → R.lookup x.world.tracker task ≡ none
      → IsSampling T R tasks n
          (entries T R x refs (R.tracker_add true x.world.tracker task 0).0 x.world.memory.procs)
  added_null-IsSampling x refs task h has absent = record {
    ready = R.add-Ready true x.world.tracker task 0 h.ready (tasks.live task has) absent;
    buffers = h.buffers;
    in_memory = λ t p has' e ne. h.in_memory t p has' (before t p has' e ne) ne;
    apart = λ t u p has' has'' e e' ne.
        h.apart t u p has' has'' (before t p has' e ne) (before u p has'' e' ne) ne;
    sized = h.sized;
    owned = λ p d e.
        let (ne, (t, has', e')) = h.owned p d e in
        (ne, (t, has', lookup-add_old x task t 0 p h has has' absent e'));
  }
    where
      before :
          (t : Task) (p : ℕ)
          → tasks.Has t
          → R.lookup (R.tracker_add true x.world.tracker task 0).0 t ≡ some p
          → p ≢ 0
          → R.lookup x.world.tracker t ≡ some p
      before t p has' e ne =
          elim (lookup-add_cases x task t 0 p h has has' absent (inl (omega arith)) e) [
            | inl (id, null) ↦ absurd (ne null)
            | inr e' ↦ e'
          ]
