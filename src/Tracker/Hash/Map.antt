-- ===== src/Tracker/Hash/Map.antt =====
-- ptracker_hash.c as an instance of the interface of ptracker.h.
use pmu_min_suite.Prelude.{
  ℕ, suc, ◌≤◌, ◌≡◌, refl, Bool, true, false, Option, none, some, is_some, List, [], ◌∷◌, arith,
}
use pmu_min_suite.Tracker.Task.{Task}
use pmu_min_suite.Tracker.Contract.{Tracker, IsLive, Apart, IsCanonical, or_null}
use pmu_min_suite.Tracker.Hash.{
  HashTracker, tracker_add, tracker_del, query_tracker, query_data_tracker,
}
use pmu_min_suite.Tracker.Hash.Stacks.{
  top, contents, contents-add, contents-del, reply-del, unlocked-add, unlocked-del, find_data,
}

abbrev pub length : List ℕ → ℕ
length [] = 0
length (d ∷ ds) = suc (length ds)

module _ (bucket_of : ℕ → ℕ) where
  -- The lock is free, and no pid was added twice.
  pub record Ready (s : HashTracker) : Type 0 where
    pub free : s.lock ≡ false
    pub single : (id : ℕ) → length (contents bucket_of s id) ≤ 1

  abbrev pub lookup : HashTracker → Task → Option ℕ
  lookup s t = top (contents bucket_of s t.pid)

  pub query_lem :
      (s : HashTracker) (t : Task) → Ready s → query_tracker bucket_of s t ≡ is_some (lookup s t)
  unfolding query_tracker
  query_lem s t r =
      ground (arith, r.free, find_data bucket_of t.pid (s.tracked_map (bucket_of t.pid)))

  pub query_data_lem :
      (s : HashTracker) (t : Task)
      → Ready s
      → query_data_tracker bucket_of s t ≡ or_null (lookup s t)
  unfolding query_data_tracker
  query_data_lem s t r =
      ground (arith, r.free, find_data bucket_of t.pid (s.tracked_map (bucket_of t.pid)))

  failed-add : (s : HashTracker) (t : Task) (d : ℕ) → (tracker_add bucket_of false s t d).0 ≡ s
  unfolding tracker_add
  failed-add s t d = refl

  pub add-Ready :
      (alloc : Bool) (s : HashTracker) (t : Task) (d : ℕ)
      → Ready s
      → IsLive t
      → lookup s t ≡ none
      → Ready (tracker_add bucket_of alloc s t d).0
  add-Ready true s t d r h e = record {
    free = unlocked-add bucket_of true s t d r.free;
    single = λ id. ground (arith, contents-add bucket_of s t d id, r.single id);
  }
  add-Ready false s t d r h e = rw (failed-add s t d) r

  pub lookup-add :
      (s : HashTracker) (t : Task) (d : ℕ)
      → Ready s
      → IsLive t
      → IsCanonical d
      → lookup s t ≡ none
      → lookup (tracker_add bucket_of true s t d).0 t ≡ some d
  lookup-add s t d r h c e = ground (arith, contents-add bucket_of s t d t.pid)

  pub lookup-add_other :
      (alloc : Bool) (s : HashTracker) (t u : Task) (d : ℕ)
      → Ready s
      → Apart t u
      → lookup (tracker_add bucket_of alloc s t d).0 u ≡ lookup s u
  lookup-add_other true s t u d r h = ground (arith, contents-add bucket_of s t d u.pid)
  lookup-add_other false s t u d r h = rw (failed-add s t d)

  pub del-Ready : (s : HashTracker) (t : Task) → Ready s → Ready (tracker_del bucket_of s t).0
  del-Ready s t r = record {
    free = unlocked-del bucket_of s t;
    single = λ id. ground (arith, contents-del bucket_of s t id, r.single id, r.single t.pid);
  }

  pub lookup-del :
      (s : HashTracker) (t : Task)
      → Ready s
      → IsLive t
      → lookup (tracker_del bucket_of s t).0 t ≡ none
  lookup-del s t r h = ground (arith, contents-del bucket_of s t t.pid, r.single t.pid)

  pub del-returns :
      (s : HashTracker) (t : Task) → Ready s → (tracker_del bucket_of s t).1 ≡ or_null (lookup s t)
  del-returns s t r = ground (arith, reply-del bucket_of s t)

  pub lookup-del_other :
      (s : HashTracker) (t u : Task)
      → Ready s
      → Apart t u
      → lookup (tracker_del bucket_of s t).0 u ≡ lookup s u
  lookup-del_other s t u r h = ground (arith, contents-del bucket_of s t u.pid)

  abbrev pub hash_tracker : Tracker
  hash_tracker = record {
    State = HashTracker;
    tracker_add = tracker_add bucket_of;
    tracker_del = tracker_del bucket_of;
    query_tracker = query_tracker bucket_of;
    query_data_tracker = query_data_tracker bucket_of;
    Ready = Ready;
    lookup = lookup;
    query_lem = query_lem;
    query_data_lem = query_data_lem;
    add-Ready = add-Ready;
    lookup-add = lookup-add;
    lookup-add_other = lookup-add_other;
    del-Ready = del-Ready;
    lookup-del = lookup-del;
    del-returns = del-returns;
    lookup-del_other = lookup-del_other;
  }
