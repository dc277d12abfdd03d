-- ===== src/Tracker/Wrappers/Trace.antt =====
-- The wrappers of ptracker.c over the events of a system of tasks, and the pids that these events
-- leave tracked.
use pmu_min_suite.Prelude.{
  ℕ, ◌≡◌, ◌≢◌, refl, sym, ap, ◌∙◌, Bool-cases, ==_iff, inl, inr, Bool, true, false, ◌==◌, Option,
  none, some, is_some, List, [], ◌∷◌, arith,
}
use mathlib.Core.Path.{subst}
use pmu_min_suite.Prelude.Family.{update}
use pmu_min_suite.Tracker.Task.{Task}
use pmu_min_suite.Tracker.Contract.{Tracker, IsLive, Apart, IsCanonical}
use pmu_min_suite.Tracker.Wrappers.{
  Event, switch, fork, exit, track_ctxs_wrapper, track_fork_wrapper, track_exit_wrapper, handle,
}

-- Which pids are tracked after an event: a child as its parent is, and no task after its exit.
unfoldable pub inherit : (ℕ → Bool) → Event → ℕ → Bool
inherit a (switch prev next) = a
inherit a (fork alloc parent child) = update a child.pid (a parent.pid)
inherit a (exit p) = update a p.pid false

unfoldable pub inherit_all : (ℕ → Bool) → List Event → ℕ → Bool
inherit_all a [] = a
inherit_all a (e ∷ es) = inherit_all (inherit a e) es

-- The tasks of a system: they are live, and two of them with different pids have nothing in common.
pub record World : Type 1 where
  pub Has : Task → Type 0
  pub live : (t : Task) → Has t → IsLive t
  pub apart : (t u : Task) → Has t → Has u → t.pid ≢ u.pid → Apart t u
  pub same : (t u : Task) → Has t → Has u → t.pid ≡ u.pid → t ≡ u

-- An event of the system: its tasks are of the world, and a fork makes a task that is not tracked
-- yet and finds the memory for its entry.
abbrev pub Occurs : World → (ℕ → Bool) → Event → Type 0
Occurs W a (switch prev next) = W.Has prev × W.Has next
Occurs W a (fork alloc parent child) =
    W.Has parent × W.Has child × (alloc ≡ true) × (a child.pid ≡ false)
Occurs W a (exit p) = W.Has p

abbrev pub OccurAll : World → (ℕ → Bool) → List Event → Type 0
OccurAll W a [] = Unit
OccurAll W a (e ∷ es) = Occurs W a e × OccurAll W (inherit a e) es

pub true≢false : true ≢ false
true≢false e = cc

none_of {ℓ} : {A : Type ℓ} (o : Option A) → is_some o ≡ false → o ≡ none
none_of none e = refl
none_of (some x) e = cc

module _ (T : Tracker) {C : Type 0} (on_attach : C → C × ℕ) (on_detach : ℕ → C → C)
    (canonical : (c : C) → IsCanonical (on_attach c).1) (W : World) where
  open T use {State, query_tracker, Ready, lookup}

  unfoldable pub handle_all : State × C → List Event → State × C
  handle_all sc [] = sc
  handle_all sc (e ∷ es) = handle_all (handle T on_attach on_detach sc e) es

  -- The tracker answers as the set `a` of pids does.
  pub record Tracks (s : State) (a : ℕ → Bool) : Type 0 where
    pub ready : Ready s
    pub agree : (t : Task) → W.Has t → is_some (lookup s t) ≡ a t.pid

  absent :
      (s : State) (a : ℕ → Bool) (t : Task)
      → Tracks s a
      → W.Has t
      → a t.pid ≡ false
      → lookup s t ≡ none
  absent s a t k h e = none_of (lookup s t) (k.agree t h ∙ e)

  add-Tracks :
      (s : State) (a : ℕ → Bool) (t : Task) (d : ℕ)
      → Tracks s a
      → W.Has t
      → a t.pid ≡ false
      → IsCanonical d
      → Tracks (T.tracker_add true s t d).0 (update a t.pid true)
  add-Tracks s a t d k h e c = record {
    ready = T.add-Ready true s t d k.ready (W.live t h) (absent s a t k h e);
    agree = λ u hu. elim (Bool-cases (t.pid == u.pid)) [
      | inl eq ↦
          let same : t ≡ u = W.same t u h hu ((==_iff t.pid u.pid).0 eq) in
          rw eq (
            subst (λ v. is_some (lookup (T.tracker_add true s t d).0 v) ≡ true) same
              (ap is_some (T.lookup-add s t d k.ready (W.live t h) c (absent s a t k h e))))
      | inr ne ↦ rw ne (
          ap is_some (
            T.lookup-add_other true s t u d k.ready
              (W.apart t u h hu (λ p. true≢false (sym ((==_iff t.pid u.pid).1 p) ∙ ne))))
          ∙ k.agree u hu)
    ];
  }

  del-Tracks :
      (s : State) (a : ℕ → Bool) (t : Task)
      → Tracks s a
      → W.Has t
      → Tracks (T.tracker_del s t).0 (update a t.pid false)
  del-Tracks s a t k h = record {
    ready = T.del-Ready s t k.ready;
    agree = λ u hu. elim (Bool-cases (t.pid == u.pid)) [
      | inl eq ↦
          let same : t ≡ u = W.same t u h hu ((==_iff t.pid u.pid).0 eq) in
          rw eq (
            subst (λ v. is_some (lookup (T.tracker_del s t).0 v) ≡ false) same
              (ap is_some (T.lookup-del s t k.ready (W.live t h))))
      | inr ne ↦ rw ne (
          ap is_some (
            T.lookup-del_other s t u k.ready
              (W.apart t u h hu (λ p. true≢false (sym ((==_iff t.pid u.pid).1 p) ∙ ne))))
          ∙ k.agree u hu)
    ];
  }

  skip-Tracks :
      (s : State) (a : ℕ → Bool) (id : ℕ) → a id ≡ false → Tracks s a → Tracks s (update a id false)
  skip-Tracks s a id e k = record { ready = k.ready; agree = λ u hu. ground (arith, k.agree u hu) }

  asked : (s : State) (a : ℕ → Bool) (t : Task) → Tracks s a → W.Has t → query_tracker s t ≡ a t.pid
  asked s a t k h = T.query_lem s t k.ready ∙ k.agree t h

  fork-Tracks :
      (s : State) (c : C) (a : ℕ → Bool) (parent child : Task)
      → Tracks s a
      → Occurs W a (fork true parent child)
      → Tracks
          (track_fork_wrapper T on_attach on_detach true (s, c) parent child).0
          (update a child.pid (a parent.pid))
  unfolding track_fork_wrapper
  fork-Tracks s c a parent child k o = elim (Bool-cases (a parent.pid)) [
    | inl e ↦
        rw (asked s a parent k o.0, e)
          (add-Tracks s a child (on_attach c).1 k o.1 o.3 (canonical c))
    | inr e ↦ rw (asked s a parent k o.0, e) (skip-Tracks s a child.pid o.3 k)
  ]

  -- One event keeps the agreement.
  handle-Tracks :
      (s : State) (c : C) (a : ℕ → Bool) (e : Event)
      → Tracks s a
      → Occurs W a e
      → Tracks (handle T on_attach on_detach (s, c) e).0 (inherit a e)
  unfolding handle inherit track_ctxs_wrapper track_exit_wrapper
  handle-Tracks s c a (switch prev next) k o = k
  handle-Tracks s c a (fork true parent child) k o = fork-Tracks s c a parent child k o
  handle-Tracks s c a (fork false parent child) k o = absurd (true≢false (sym o.2))
  handle-Tracks s c a (exit p) k o = del-Tracks s a p k o

  handle_all-Tracks :
      (es : List Event) (s : State) (c : C) (a : ℕ → Bool)
      → Tracks s a
      → OccurAll W a es
      → Tracks (handle_all (s, c) es).0 (inherit_all a es)
  unfolding handle_all inherit_all
  handle_all-Tracks [] s c a k o = k
  handle_all-Tracks (e ∷ es) s c a k o =
      handle_all-Tracks es (handle T on_attach on_detach (s, c) e).0
        (handle T on_attach on_detach (s, c) e).1 (inherit a e) (handle-Tracks s c a e k o.0) o.1

  -- For every tracker and callbacks that attach canonical pointers: if the tracker answers as a set
  -- of pids does before a series of events of tasks of a system (live tasks, one for a pid, that
  -- share nothing), in which each fork makes a child whose pid is not in the set yet and finds the
  -- memory for its entry in the tracker, then a query of a task of the system answers after the
  -- series as the set that the events leave: a child is tracked as its parent was at the fork, and
  -- no task is tracked after its exit.
  pub query-handle_all :
      (es : List Event) (s : State) (c : C) (a : ℕ → Bool)
      → Tracks s a
      → OccurAll W a es
      → (t : Task) → W.Has t
      → query_tracker (handle_all (s, c) es).0 t ≡ inherit_all a es t.pid
  query-handle_all es s c a k o t h =
      asked (handle_all (s, c) es).0 (inherit_all a es) t (handle_all-Tracks es s c a k o) h
