-- ===== src/Tracker/Hash/Count.antt =====
-- The representation of the table of ptracker_hash.c: the bucket of each node, and `tracked_count`.
use pmu_min_suite.Prelude.{
  ℕ, suc, ◌+◌, ◌%◌, ◌^◌, ◌<◌, ◌≡◌, refl, Bool, true, false, ◌==◌, is_some, List, [], ◌∷◌, arith,
  inl, inr, Bool-cases, Option-cases, ==_iff,
}
use mathlib.Core.Path.{subst}
use pmu_min_suite.Prelude.Family.{total, total-update}
use pmu_min_suite.Tracker.Task.{Task}
use pmu_min_suite.Tracker.Hash.{
  TpNode, HashTracker, spin_lock, spin_unlock, find_node, unlink_node, hash_add, hash_del,
  tracker_add, tracker_del, tracker_init,
}

abbrev pub length : List TpNode → ℕ
length [] = 0
length (n ∷ ns) = suc (length ns)

-- The nodes in the first `n` buckets.
abbrev pub nodes : ℕ → (ℕ → List TpNode) → ℕ
nodes n map = total length n map

abbrev pub nr_buckets : ℕ
nr_buckets = 256

abbrev pub All {ℓ} : (TpNode → Type ℓ) → List TpNode → Type ℓ
All P [] = Unit
All P (n ∷ ns) = P n × All P ns

length-unlink_node :
    (id : ℕ) (ns : List TpNode)
    → is_some (find_node id ns) ≡ true
    → length (unlink_node id ns) + 1 ≡ length ns
unfolding find_node unlink_node
length-unlink_node id [] h = absurd (cc)
length-unlink_node id (n ∷ ns) h = ground (arith, length-unlink_node id ns)

All-unlink_node {ℓ} :
    (P : TpNode → Type ℓ) (id : ℕ) (ns : List TpNode) → All P ns → All P (unlink_node id ns)
unfolding unlink_node
All-unlink_node P id [] h = tt
All-unlink_node P id (n ∷ ns) h = elim (Bool-cases (n.id == id)) [
  | inl e ↦ rw e h.1
  | inr e ↦ rw e (h.0, All-unlink_node P id ns h.1)
]

module _ (bucket_of : ℕ → ℕ) (bounded : (id : ℕ) → bucket_of id < nr_buckets) where
  pub record IsCounted (s : HashTracker) : Type 0 where
    pub free : s.lock ≡ false
    pub counted : s.tracked_count ≡ nodes nr_buckets s.tracked_map % 2 ^ 32
    pub placed : (b : ℕ) → All (λ n. bucket_of n.id ≡ b) (s.tracked_map b)

  -- Adding keeps the count and the placement, with memory or without.
  pub add-IsCounted :
      (alloc : Bool) (s : HashTracker) (t : Task) (d : ℕ)
      → IsCounted s
      → IsCounted (tracker_add bucket_of alloc s t d).0
  unfolding tracker_add hash_add spin_lock spin_unlock
  add-IsCounted true s t d v = record {
    free = refl;
    counted = ground (
      arith,
      v.counted,
      total-update length 256 s.tracked_map (bucket_of t.pid)
          (record { id = t.pid; data_ptr = d } ∷ s.tracked_map (bucket_of t.pid)) (bounded t.pid),
    );
    placed = λ b. ground (arith, v.placed b, v.placed (bucket_of t.pid));
  }
  add-IsCounted false s t d v = v

  placed-hash_del :
      (map : ℕ → List TpNode) (id b : ℕ)
      → ((c : ℕ) → All (λ n. bucket_of n.id ≡ c) (map c))
      → All (λ n. bucket_of n.id ≡ b) (hash_del bucket_of map id b)
  unfolding hash_del
  placed-hash_del map id b h = elim (Bool-cases (bucket_of id == b)) [
    | inl same ↦ rw same (
        subst (λ c. All (λ n. bucket_of n.id ≡ c) (unlink_node id (map (bucket_of id))))
          ((==_iff (bucket_of id) b).0 same)
          (All-unlink_node (λ n. bucket_of n.id ≡ bucket_of id) id (map (bucket_of id))
            (h (bucket_of id))))
    | inr other ↦ rw other (h b)
  ]

  nodes-hash_del :
      (map : ℕ → List TpNode) (id : ℕ)
      → is_some (find_node id (map (bucket_of id))) ≡ true
      → nodes nr_buckets (hash_del bucket_of map id) + 1 ≡ nodes nr_buckets map
  unfolding hash_del
  nodes-hash_del map id h = omega (
    arith,
    total-update length nr_buckets map (bucket_of id) (unlink_node id (map (bucket_of id)))
        (bounded id),
    length-unlink_node id (map (bucket_of id)) h,
  )

  -- Removing keeps them too, whether the task was tracked or not.
  pub del-IsCounted :
      (s : HashTracker) (t : Task) → IsCounted s → IsCounted (tracker_del bucket_of s t).0
  unfolding tracker_del spin_lock spin_unlock
  del-IsCounted s t v = elim (Option-cases (find_node t.pid (s.tracked_map (bucket_of t.pid)))) [
    | inl e ↦ rw (e, tracker_del) (record { free = refl; counted = v.counted; placed = v.placed })
    | inr (cur, e) ↦
        rw (e, tracker_del)
          (record {
            free = refl;
            counted = omega (arith, v.counted, nodes-hash_del s.tracked_map t.pid (rw e refl));
            placed = λ b. placed-hash_del s.tracked_map t.pid b v.placed;
          })
  ]

  -- A fresh table is empty, and has the count 0 if no node was counted before.
  init-IsCounted : (s : HashTracker) → s.tracked_count ≡ 0 → IsCounted (tracker_init s).0
  unfolding tracker_init total
  init-IsCounted s h = record { free = refl; counted = h; placed = λ b. tt }
