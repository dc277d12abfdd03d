-- ===== src/Client/Attach/Forks.antt =====
-- The callbacks of client/client_module.c under the hooks of ptracker.c: a child that is tracked
-- because its parent is, and that exits.
use pmu_min_suite.Prelude.{refl, ℕ, ◌≡◌, ◌≢◌, true, Option, none, some, List, ◌∙◌, ap}
use pmu_min_suite.Clist.Contract.{Clist}
use pmu_min_suite.Tracker.Task.{Task}
use pmu_min_suite.Tracker.Contract.{Tracker, IsLive, IsCanonical, Apart, or_null}
use pmu_min_suite.Tracker.Wrappers.{track_fork_wrapper, track_exit_wrapper}
use pmu_min_suite.Client.Pmi.{ProcData}
use pmu_min_suite.Client.Attach.{Memory, client_hook_on_attach, client_hook_on_detach}
use pmu_min_suite.Client.Attach.Lifetime.{client_hook_on_detach-client_hook_on_attach}

module _ (T : Clist) (R : Tracker) (kmalloc : Option (ℕ × ProcData))
    (kvmalloc : ℕ → Option (List ℕ)) (address : ℕ) where
  -- The callbacks on the memory, `none` once something that is not there was used.
  abbrev pub on_attach : Option (Memory T) → Option (Memory T) × ℕ
  on_attach none = (none, 0)
  on_attach (some m) = (
    some (client_hook_on_attach T kmalloc kvmalloc address m).0,
    (client_hook_on_attach T kmalloc kvmalloc address m).1,
  )

  abbrev pub on_detach : ℕ → Option (Memory T) → Option (Memory T)
  on_detach proc none = none
  on_detach proc (some m) = client_hook_on_detach T proc m

  -- What a fork and then the exit of the child leave.
  abbrev pub fork_and_exit : R.State × Option (Memory T) → Task → Task → R.State × Option (Memory T)
  fork_and_exit w parent child =
      track_exit_wrapper R on_attach on_detach
        (track_fork_wrapper R on_attach on_detach true w parent child) child

module _ (T : Clist) (R : Tracker) (kvmalloc : ℕ → Option (List ℕ)) (address proc : ℕ)
    (held : ProcData) where
  attached : Memory T → Memory T
  attached m = (client_hook_on_attach T (some (proc, held)) kvmalloc address m).0

  fork_and_exit_lem :
      (s : R.State) (m : Memory T) (parent child : Task)
      → R.query_tracker s parent ≡ true
      → (R.tracker_del (R.tracker_add true s child proc).0 child).1 ≡ proc
      → fork_and_exit T R (some (proc, held)) kvmalloc address (s, some m) parent child ≡ (
        (R.tracker_del (R.tracker_add true s child proc).0 child).0,
        client_hook_on_detach T proc (attached m),
      )
  unfolding track_fork_wrapper track_exit_wrapper attached client_hook_on_attach
  fork_and_exit_lem s m parent child tracked back = rw (tracked, back) refl

  -- For every tracker and every list: if a tracked task forks, the child and its structure and list
  -- get what they ask for at free addresses, and the child exits, then nothing was used that is not
  -- there, the child is not tracked, every task that shares nothing with the child is tracked as
  -- before, and the memory is as it was.
  pub fork_and_exit-restores :
      (s : R.State) (m : Memory T) (parent child : Task)
      → R.Ready s
      → R.query_tracker s parent ≡ true
      → IsLive child
      → IsCanonical proc
      → proc ≢ 0
      → address ≢ 0
      → R.lookup s child ≡ none
      → m.clists address ≡ none
      → m.procs proc ≡ none
      → (s' : R.State) × (m' : Memory T) × (fork_and_exit T R
            (some (proc, held))
            kvmalloc
            address
            (s, some m)
            parent
            child
          ≡ (s', some m'))
        × (R.lookup s' child ≡ none)
        × ((u : Task) → Apart child u → R.lookup s' u ≡ R.lookup s u)
        × ((a : ℕ) → m'.clists a ≡ m.clists a)
        × ((p : ℕ) → m'.procs p ≡ m.procs p)
  unfolding attached
  fork_and_exit-restores s m parent child ready tracked live canon hp ha absent fa fp =
      let added = R.add-Ready true s child proc ready live absent in
      let found = R.lookup-add s child proc ready live canon absent in
      let back =
        R.del-returns (R.tracker_add true s child proc).0 child added
        ∙ ap (λ (o : Option ℕ). or_null o) found in
      let (m', e, clists, procs) =
        client_hook_on_detach-client_hook_on_attach T kvmalloc address proc held m ha hp fa fp in
      (
        (R.tracker_del (R.tracker_add true s child proc).0 child).0,
        m',
        fork_and_exit_lem s m parent child tracked back
            ∙ ap (λ o. ((R.tracker_del (R.tracker_add true s child proc).0 child).0, o)) e,
        R.lookup-del (R.tracker_add true s child proc).0 child added live,
        λ u apart.
            R.lookup-del_other (R.tracker_add true s child proc).0 child u added apart
            ∙ R.lookup-add_other true s child u proc ready apart,
        clists,
        procs,
      )
