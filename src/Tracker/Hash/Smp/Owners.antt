-- ===== src/Tracker/Hash/Smp/Owners.antt =====
-- Who may free a node of ptracker_hash.c: the table, the agent that adds it or the agent that removes
-- it.
use pmu_min_suite.Prelude.{
  ℕ, ◌+◌, ◌≤◌, ◌<◌, ◌≡◌, ◌≢◌, refl, ap, ◌∙◌, arith, ◌==◌, if◌then◌else◌, Option, none, some, List,
  [], ◌∷◌,
}
use pmu_min_suite.Prelude.Family.{update, total, total-update, weight-le-total, total-eq-zero}
use pmu_min_suite.Tracker.Task.{Task}
use pmu_min_suite.Tracker.Hash.{
  TpNode, HashTracker, spin_lock, spin_unlock, find_node, unlink_node, hash_add, hash_del,
}
use pmu_min_suite.Tracker.Hash.Smp.{
  Call, add, del, query, query_data, Pc, idle, waiting, inside, leaving, after, System, initialized,
  address, work, CallStep, kmalloc, call, lock, trylock_fails, spin, do_work, unlock, free, read,
  finish_add, finish_query, agent, Reach, here, later,
}

-- 1 if the optional node is the one at `a`.
abbrev pub one_at : ℕ → Option ℕ → ℕ
one_at a none = 0
one_at a (some node) = if node == a then 1 else 0

-- How many nodes at `a` an agent owns: the one that it adds, until its work is done, and the one that
-- it removes, from its work on.
abbrev pub added : ℕ → Call → ℕ
added a (add t d node) = one_at a (some node)
added a _ = 0

abbrev pub removed : ℕ → Call → Option ℕ → ℕ
removed a (del t) cur = one_at a cur
removed a _ cur = 0

abbrev pub owned : ℕ → Pc → ℕ
owned a idle = 0
owned a (waiting c) = added a c
owned a (inside c) = added a c
owned a (leaving c cur) = removed a c cur
owned a (after c cur) = removed a c cur

abbrev pub in_bucket : ℕ → List TpNode → ℕ
in_bucket a [] = 0
in_bucket a (n ∷ ns) = one_at a (some n.data_ptr) + in_bucket a ns

abbrev pub present : Option ℕ → ℕ
present none = 0
present (some d) = 1

-- Each node that is in memory has one owner, and what is not in memory has none.
pub IsOwned : ℕ → System → Type 0
IsOwned n s =
    (a : ℕ)
    → total (owned a) n s.pc + total (in_bucket a) 256 s.table.tracked_map ≡ present (s.heap a)

in_bucket-unlink_node :
    (a id : ℕ) (ns : List TpNode)
    → in_bucket a (unlink_node id ns) + one_at a (address (find_node id ns)) ≡ in_bucket a ns
unfolding unlink_node find_node
in_bucket-unlink_node a id [] = refl
in_bucket-unlink_node a id (n ∷ ns) = ground (arith, in_bucket-unlink_node a id ns)

module _ (bucket_of : ℕ → ℕ) (bucket_of-lt : (id : ℕ) → bucket_of id < 256) where
  -- The work moves an added node into the table and a removed one out of it.
  work-owned :
      (a : ℕ) (c : Call) (s : HashTracker)
      → removed a c (work bucket_of c s).1
          + total (in_bucket a) 256 (work bucket_of c s).0.tracked_map
        ≡ added a c + total (in_bucket a) 256 s.tracked_map
  unfolding work hash_add hash_del
  work-owned a (add t d node) s = ground (
    arith,
    total-update (in_bucket a) 256 s.tracked_map (bucket_of t.pid)
        (record { id = t.pid; data_ptr = node } ∷ s.tracked_map (bucket_of t.pid))
        (bucket_of-lt t.pid),
  )
  work-owned a (del t) s = ground (
    arith,
    in_bucket-unlink_node a t.pid (s.tracked_map (bucket_of t.pid)),
    total-update (in_bucket a) 256 s.tracked_map (bucket_of t.pid)
        (unlink_node t.pid (s.tracked_map (bucket_of t.pid))) (bucket_of-lt t.pid),
  )
  work-owned a (query t) s = omega arith
  work-owned a (query_data t) s = omega arith

  owned_step :
      {n : ℕ} {s t : System} {p q : Pc} (i : ℕ)
      → i < n
      → s.pc i ≡ p
      → CallStep bucket_of s p t q
      → IsOwned n s
      → (a : ℕ)
      → total (owned a) n (update s.pc i q) + total (in_bucket a) 256 t.table.tracked_map
        ≡ present (t.heap a)
  unfolding IsOwned spin_lock spin_unlock
  owned_step {n} {s} i lt e (kmalloc t d node nonzero fresh) h a =
      ground (arith, h a, total-update (owned a) n s.pc i (waiting (add t d node)) lt)
  owned_step {n} {s} i lt e (call c k) h a =
      ground (arith, h a, total-update (owned a) n s.pc i (waiting c) lt)
  owned_step {n} {s} i lt e (lock c k) h a =
      ground (arith, h a, total-update (owned a) n s.pc i (inside c) lt)
  owned_step {n} {s} i lt e (trylock_fails c k l) h a =
      ground (arith, h a, total-update (owned a) n s.pc i (after c none) lt)
  owned_step {n} {s} i lt e (spin c k l) h a =
      ground (arith, h a, total-update (owned a) n s.pc i (waiting c) lt)
  owned_step {n} {s} i lt e (do_work c) h a = ground (
    arith,
    h a,
    work-owned a c s.table,
    total-update (owned a) n s.pc i (leaving c (work bucket_of c s.table).1) lt,
  )
  owned_step {n} {s} i lt e (unlock c cur) h a =
      ground (arith, h a, total-update (owned a) n s.pc i (after c cur) lt)
  owned_step {n} {s} i lt e (free t none) h a =
      ground (arith, h a, total-update (owned a) n s.pc i idle lt)
  owned_step {n} {s} i lt e (free t (some node)) h a =
      ground (arith, h a, total-update (owned a) n s.pc i idle lt)
  owned_step {n} {s} i lt e (read t cur) h a =
      ground (arith, h a, total-update (owned a) n s.pc i idle lt)
  owned_step {n} {s} i lt e (finish_add t d node cur) h a =
      ground (arith, h a, total-update (owned a) n s.pc i idle lt)
  owned_step {n} {s} i lt e (finish_query t cur) h a =
      ground (arith, h a, total-update (owned a) n s.pc i idle lt)

  Reach-IsOwned : {n : ℕ} {s t : System} → IsOwned n s → Reach bucket_of n s t → IsOwned n t
  unfolding IsOwned
  Reach-IsOwned h here = h
  Reach-IsOwned h (later r (agent i lt e st)) = owned_step i lt e st (Reach-IsOwned h r)

  initialized-IsOwned : (n : ℕ) → IsOwned n initialized
  unfolding IsOwned
  initialized-IsOwned n a = omega (
    arith,
    total-eq-zero (owned a) n initialized.pc (λ i lt. refl),
    total-eq-zero (in_bucket a) 256 initialized.table.tracked_map (λ i lt. refl),
  )

  present-some : (o : Option ℕ) → 1 ≤ present o → (d : ℕ) × (o ≡ some d)
  present-some none h = absurd (omega arith)
  present-some (some d) h = (d, refl)

  one_at_self : (a : ℕ) → one_at a (some a) ≡ 1
  one_at_self a = ground arith

  in_bucket-found :
      (id : ℕ) (ns : List TpNode) (cur : TpNode)
      → find_node id ns ≡ some cur
      → 1 ≤ in_bucket cur.data_ptr ns
  in_bucket-found id ns cur e =
      omega (arith, in_bucket-unlink_node cur.data_ptr id ns, found, one_at_self cur.data_ptr)
    where
      found :
          one_at cur.data_ptr (address (find_node id ns)) ≡ one_at cur.data_ptr (some cur.data_ptr)
      found = rw e refl

  present-le : (o : Option ℕ) → present o ≤ 1
  present-le none = omega arith
  present-le (some d) = omega arith

  found_live :
      (n : ℕ) (s : System) (id : ℕ) (cur : TpNode)
      → IsOwned n s
      → find_node id (s.table.tracked_map (bucket_of id)) ≡ some cur
      → (d : ℕ) × (s.heap cur.data_ptr ≡ some d)
  unfolding IsOwned
  found_live n s id cur h e = present-some (s.heap cur.data_ptr) (
      omega (
        arith,
        h cur.data_ptr,
        in_bucket-found id (s.table.tracked_map (bucket_of id)) cur e,
        weight-le-total (in_bucket cur.data_ptr) 256 s.table.tracked_map (bucket_of id)
            (bucket_of-lt id),
      ))

  freed_owner :
      (n : ℕ) (s : System) (i node : ℕ) (task : Task)
      → IsOwned n s
      → i < n
      → s.pc i ≡ after (del task) (some node)
      → ((d : ℕ) × (s.heap node ≡ some d))
        × (total (in_bucket node) 256 s.table.tracked_map ≡ 0)
        × ((j : ℕ) → j < n → j ≢ i → owned node (s.pc j) ≡ 0)
  unfolding IsOwned
  freed_owner n s i node task h lt e =
      let own = ap (λ (p : Pc). owned node p) e ∙ one_at_self node in
      let below = weight-le-total (owned node) n s.pc i lt in
      (
        present-some (s.heap node) (omega (arith, h node)),
        omega (arith, h node, present-le (s.heap node)),
        λ j lt' other. ground (
          arith,
          h node,
          present-le (s.heap node),
          total-update (owned node) n s.pc i idle lt,
          weight-le-total (owned node) n (update s.pc i idle) j lt',
        ),
      )

  -- In every state that any number of agents reach: a node that an operation finds while it has the
  -- lock is in memory; the node that an agent is about to free is in memory, is not in the table, and
  -- no other agent adds or frees it; and when no agent is in a call, the nodes in memory are those of
  -- the table, each there once.
  pub nodes_owned :
      {n : ℕ} {s : System}
      → Reach bucket_of n initialized s
      → ((id : ℕ) (cur : TpNode)
          → find_node id (s.table.tracked_map (bucket_of id)) ≡ some cur
          → (d : ℕ) × (s.heap cur.data_ptr ≡ some d))
        × ((i node : ℕ) (task : Task)
            → i < n
            → s.pc i ≡ after (del task) (some node)
            → ((d : ℕ) × (s.heap node ≡ some d))
              × (total (in_bucket node) 256 s.table.tracked_map ≡ 0)
              × ((j : ℕ) → j < n → j ≢ i → owned node (s.pc j) ≡ 0))
        × (((i : ℕ) → i < n → s.pc i ≡ idle)
            → (a : ℕ) → total (in_bucket a) 256 s.table.tracked_map ≡ present (s.heap a))
  unfolding IsOwned
  nodes_owned {n} {s} r =
      let h = Reach-IsOwned (initialized-IsOwned n) r in
      (
        λ id cur. found_live n s id cur h,
        λ i node task. freed_owner n s i node task h,
        λ quiet a. omega (
          arith,
          h a,
          total-eq-zero (owned a) n s.pc (λ i lt. ap (λ (p : Pc). owned a p) (quiet i lt)),
        ),
      )
