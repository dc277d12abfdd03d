-- ===== src/Client/Sampling/Exits.antt =====
-- A task that exits, in the client module.
use pmu_min_suite.Prelude.{
  ℕ, ◌≡◌, ◌≢◌, refl, sym, ap, ◌∙◌, inl, inr, arith, Option, none, some, Bool-cases, ◌==◌, ==_iff,
  ==_false, if◌then◌else◌,
}
use native.Mathlib.Decide.{ℕ_discrete}
use pmu_min_suite.Prelude.Family.{update}
use pmu_min_suite.Clist.Contract.{Clist}
use pmu_min_suite.Tracker.Task.{Task}
use pmu_min_suite.Tracker.Contract.{Tracker, or_null}
use pmu_min_suite.Tracker.Wrappers.Trace
use pmu_min_suite.Tracker.Wrappers.{track_exit_wrapper}
use pmu_min_suite.Tracker.Wrappers.Trace.{true≢false}
use pmu_min_suite.Client.Pmu.{Settings}
use pmu_min_suite.Client.Pmi.{ProcData}
use pmu_min_suite.Client.Sampling.{Sampler, detach, exits, happen, hooked}
use pmu_min_suite.Client.Sampling.Safety.{IsSampling}
use pmu_min_suite.Client.Sampling.Entries.{entries, absurd_some}

module _ (T : Clist) (R : Tracker) (tasks : Trace.World) (n : ℕ) where
  lookup-del_before :
      (x : Sampler T R) (task t : Task) (p : ℕ)
      → IsSampling T R tasks n x
      → tasks.Has task
      → tasks.Has t
      → R.lookup (R.tracker_del x.world.tracker task).0 t ≡ some p
      → (task.pid ≢ t.pid) × (R.lookup x.world.tracker t ≡ some p)
  lookup-del_before x task t p h has has' e = elim (ℕ_discrete task.pid t.pid) [
    | yes eq ↦ absurd (
        absurd_some p (R.lookup-del x.world.tracker task h.ready (tasks.live task has)) (
          ap (λ v. R.lookup (R.tracker_del x.world.tracker task).0 v)
            (tasks.same task t has has' eq)
          ∙ e))
    | no ne ↦ (
      ne,
      sym (R.lookup-del_other x.world.tracker task t h.ready (tasks.apart task t has has' ne)) ∙ e,
    )
  ]

  -- The structures after the one of the task was freed, if it has one.
  freed : (ℕ → Option ProcData) → ℕ → ℕ → Option ProcData
  freed procs proc = if proc == 0 then procs else update procs proc none

  freed-some :
      (procs : ℕ → Option ProcData) (proc p : ℕ) (d : ProcData)
      → freed procs proc p ≡ some d
      → (procs p ≡ some d) × (p ≢ 0 → proc ≢ p)
  unfolding freed
  freed-some procs proc p d e = elim (ℕ_discrete proc 0) [
    | yes null ↦ (rw null at e, λ ne same. ne (sym same ∙ null))
    | no nonzero ↦ elim (Bool-cases (proc == p)) [
      | inl same ↦ absurd (absurd_some d (rw (==_false proc 0 nonzero, same) refl) e)
      | inr other ↦ (
        rw (==_false proc 0 nonzero, other) at e,
        λ ne same. true≢false (sym ((==_iff proc p).1 same) ∙ other),
      )
    ]
  ]

  freed_other : (procs : ℕ → Option ProcData) (proc p : ℕ) → proc ≢ p → freed procs proc p ≡ procs p
  unfolding freed
  freed_other procs proc p ne = ground (arith, ==_false proc p ne)

  or_null-some : (o : Option ℕ) (p : ℕ) → or_null o ≡ p → p ≢ 0 → o ≡ some p
  or_null-some none p e ne = absurd (ne (sym e))
  or_null-some (some q) p e ne = ap some e

  deleted-IsSampling :
      (x : Sampler T R) (task : Task) (proc : ℕ)
      → IsSampling T R tasks n x
      → tasks.Has task
      → or_null (R.lookup x.world.tracker task) ≡ proc
      → IsSampling T R tasks n (
          entries T R x x.world.refs
            (R.tracker_del x.world.tracker task).0
            (freed x.world.memory.procs proc))
  deleted-IsSampling x task proc h has gave = record {
    ready = R.del-Ready x.world.tracker task h.ready;
    buffers = h.buffers;
    in_memory = λ t p has' e ne.
        let (other, e') = lookup-del_before x task t p h has has' e in
        let (d, ed) = h.in_memory t p has' e' ne in
        (
          d,
          freed_other x.world.memory.procs proc p
                (λ same. other (h.apart task t p has has' (of_task same ne) e' ne))
              ∙ ed,
        );
    apart = λ t u p has' has'' e e' ne.
        h.apart t u p has' has'' (lookup-del_before x task t p h has has' e).1
          (lookup-del_before x task u p h has has'' e').1 ne;
    sized = λ p d e. h.sized p d (freed-some x.world.memory.procs proc p d e).0;
    owned = λ p d e.
        let (before, other) = freed-some x.world.memory.procs proc p d e in
        let (ne, (t, has', e')) = h.owned p d before in (ne, (t, has', still t has' e' (other ne)));
  }
    where
      of_task : {p : ℕ} → proc ≡ p → p ≢ 0 → R.lookup x.world.tracker task ≡ some p
      of_task same ne = or_null-some (R.lookup x.world.tracker task) _ (gave ∙ same) ne

      still :
          {p : ℕ} (t : Task)
          → tasks.Has t
          → R.lookup x.world.tracker t ≡ some p
          → proc ≢ p
          → R.lookup (R.tracker_del x.world.tracker task).0 t ≡ some p
      still t has' e ne = elim (ℕ_discrete task.pid t.pid) [
        | yes eq ↦ absurd (
            ne (
              sym gave
              ∙ ap (λ v. or_null (R.lookup x.world.tracker v)) (tasks.same task t has has' eq)
              ∙ ap or_null e))
        | no other ↦
            R.lookup-del_other x.world.tracker task t h.ready (tasks.apart task t has has' other)
            ∙ e
      ]

  detach-some :
      (procs : ℕ → Option ProcData) (proc : ℕ)
      → (proc ≢ 0 → (d : ProcData) × (procs proc ≡ some d))
      → detach T R proc (some procs) ≡ some (freed procs proc)
  unfolding freed
  detach-some procs proc there = elim (ℕ_discrete proc 0) [
    | yes null ↦ rw null refl
    | no nonzero ↦ let (d, e) = there nonzero in rw (==_false proc 0 nonzero, e) refl
  ]

  -- An exit frees the structure of the task, if it has one, and no other.
  pub exits-IsSampling :
      (s : Settings) (x : Sampler T R) (task : Task)
      → IsSampling T R tasks n x
      → tasks.Has task
      → (x' : Sampler T R) × (happen T R s x (exits task) ≡ some x') × IsSampling T R tasks n x'
  unfolding happen track_exit_wrapper
  exits-IsSampling s x task h has = (
    entries T R x x.world.refs (R.tracker_del x.world.tracker task).0
        (freed x.world.memory.procs (or_null (R.lookup x.world.tracker task))),
    ap (λ o. hooked T R x ((R.tracker_del x.world.tracker task).0, o))
        (ap (λ a. detach T R a (some x.world.memory.procs))
            (R.del-returns x.world.tracker task h.ready)
          ∙ detach-some x.world.memory.procs (or_null (R.lookup x.world.tracker task)) there),
    deleted-IsSampling x task (or_null (R.lookup x.world.tracker task)) h has refl,
  )
    where
      there :
          or_null (R.lookup x.world.tracker task) ≢ 0
          → (d : ProcData) × (x.world.memory.procs (or_null (R.lookup x.world.tracker task))
              ≡ some d)
      there ne =
          h.in_memory task (or_null (R.lookup x.world.tracker task)) has
            (or_null-some (R.lookup x.world.tracker task) _ refl ne) ne
