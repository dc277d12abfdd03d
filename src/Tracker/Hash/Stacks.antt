-- ===== src/Tracker/Hash/Stacks.antt =====
-- ptracker_hash.c beside a family of stacks, one for each pid: adding pushes, removing pops, and a
-- query reads the top. The table, the hash and the lock are not seen in it.
use pmu_min_suite.Prelude.{
  ℕ, ◌≡◌, refl, Bool, true, false, Option, none, some, ◌==◌, if◌then◌else◌, ℤ, pos, enomem, is_some,
  List, [], ◌∷◌, arith, ap,
}
use mathlib.Core.Path.{ap₂}
use pmu_min_suite.Prelude.Family.{update}
use pmu_min_suite.Tracker.Task.{Task}
use pmu_min_suite.Tracker.Hash.{
  TpNode, HashTracker, spin_lock, spin_unlock, find_node, unlink_node, hash_add, hash_del,
  tracker_add, tracker_del, query_tracker, query_data_tracker,
}

-- The data of the nodes of a pid, in the order of a bucket.
unfoldable pub of_pid : ℕ → List TpNode → List ℕ
of_pid id [] = []
of_pid id (n ∷ ns) = if n.id == id then n.data_ptr ∷ of_pid id ns else of_pid id ns

abbrev pub top : List ℕ → Option ℕ
top [] = none
top (d ∷ ds) = some d

abbrev pub top_or_null : List ℕ → ℕ
top_or_null [] = 0
top_or_null (d ∷ ds) = d

abbrev pub pop : List ℕ → List ℕ
pop [] = []
pop (d ∷ ds) = ds

abbrev pub tracked : List ℕ → Bool
tracked [] = false
tracked (d ∷ ds) = true

find_node-of_pid :
    (id : ℕ) (ns : List TpNode) → (is_some (find_node id ns) ≡ tracked (of_pid id ns))
unfolding find_node of_pid
find_node-of_pid id [] = refl
find_node-of_pid id (n ∷ ns) = ground (arith, find_node-of_pid id ns)

unlink_node-of_pid :
    (id j : ℕ) (ns : List TpNode)
    → of_pid j (unlink_node id ns) ≡ (if id == j then pop (of_pid j ns) else of_pid j ns)
unfolding unlink_node of_pid
unlink_node-of_pid id j [] = ground arith
unlink_node-of_pid id j (n ∷ ns) = ground (arith, unlink_node-of_pid id j ns)

-- The abstract tracker: the data added for each pid and not yet removed, latest first.
abbrev pub Stacks : Type 0
Stacks = ℕ → List ℕ

pub data Op : Type 0 where
  add : Bool → Task → ℕ → Op
  del : Task → Op
  query : Task → Op
  query_data : Task → Op

pub data Reply : Type 0 where
  code : ℤ → Reply
  ptr : ℕ → Reply
  flag : Bool → Reply

pub spec_step : Stacks → Op → Stacks × Reply
spec_step s (add true t d) = (update s t.pid (d ∷ s t.pid), code (pos 0))
spec_step s (add false t d) = (s, code enomem)
spec_step s (del t) = (update s t.pid (pop (s t.pid)), ptr (top_or_null (s t.pid)))
spec_step s (query t) = (s, flag (tracked (s t.pid)))
spec_step s (query_data t) = (s, ptr (top_or_null (s t.pid)))

pub spec_run : Stacks → List Op → List Reply
spec_run s [] = []
spec_run s (op ∷ ops) = let (s', r) = spec_step s op in r ∷ spec_run s' ops

module _ (bucket_of : ℕ → ℕ) where
  unfoldable pub step : HashTracker → Op → HashTracker × Reply
  step s (add alloc t d) = let (s', r) = tracker_add bucket_of alloc s t d in (s', code r)
  step s (del t) = let (s', p) = tracker_del bucket_of s t in (s', ptr p)
  step s (query t) = (s, flag (query_tracker bucket_of s t))
  step s (query_data t) = (s, ptr (query_data_tracker bucket_of s t))

  pub run : HashTracker → List Op → List Reply
  run s [] = []
  run s (op ∷ ops) = let (s', r) = step s op in r ∷ run s' ops

  -- What the table holds for each pid.
  abbrev pub contents : HashTracker → Stacks
  contents s id = of_pid id (s.tracked_map (bucket_of id))

  -- The relation between the table and the abstract tracker, with the lock free.
  pub record Refines (s : HashTracker) (a : Stacks) : Type 0 where
    pub free : s.lock ≡ false
    pub holds : (id : ℕ) → contents s id ≡ a id

  pub find_data :
      (id : ℕ) (ns : List TpNode)
      → (is_some (find_node id ns) ≡ tracked (of_pid id ns))
        × (elim (find_node id ns) [ none ↦ 0 | some cur ↦ cur.data_ptr ]
            ≡ top_or_null (of_pid id ns))
  unfolding find_node of_pid
  find_data id [] = (refl, refl)
  find_data id (n ∷ ns) = ground (arith, find_data id ns)

  pub contents-add :
      (s : HashTracker) (t : Task) (d id : ℕ)
      → contents (tracker_add bucket_of true s t d).0 id
        ≡ update (contents s) t.pid (d ∷ contents s t.pid) id
  unfolding tracker_add hash_add spin_lock spin_unlock of_pid
  contents-add s t d id = ground arith

  pub contents-del :
      (s : HashTracker) (t : Task) (id : ℕ)
      → contents (tracker_del bucket_of s t).0 id
        ≡ update (contents s) t.pid (pop (contents s t.pid)) id
  unfolding tracker_del hash_del spin_lock spin_unlock
  contents-del s t id = ground (
    arith,
    find_data t.pid (s.tracked_map (bucket_of t.pid)),
    unlink_node-of_pid t.pid id (s.tracked_map (bucket_of t.pid)),
    unlink_node-of_pid t.pid id (s.tracked_map (bucket_of id)),
  )

  pub reply-del :
      (s : HashTracker) (t : Task) → (tracker_del bucket_of s t).1 ≡ top_or_null (contents s t.pid)
  unfolding tracker_del spin_lock
  reply-del s t = ground (arith, find_data t.pid (s.tracked_map (bucket_of t.pid)))

  pub unlocked-add :
      (alloc : Bool) (s : HashTracker) (t : Task) (d : ℕ)
      → s.lock ≡ false
      → (tracker_add bucket_of alloc s t d).0.lock ≡ false
  unfolding tracker_add spin_unlock
  unlocked-add alloc s t d h = ground arith

  pub unlocked-del : (s : HashTracker) (t : Task) → (tracker_del bucket_of s t).0.lock ≡ false
  unfolding tracker_del spin_unlock
  unlocked-del s t = ground arith

  add_code : (s : HashTracker) (t : Task) (d : ℕ) → (tracker_add bucket_of true s t d).1 ≡ pos 0
  unfolding tracker_add
  add_code s t d = refl

  -- One operation on the table does what the abstract tracker does, and answers the same.
  pub step-Refines :
      (s : HashTracker) (a : Stacks) (op : Op)
      → Refines s a
      → Refines (step s op).0 (spec_step a op).0 × ((step s op).1 ≡ (spec_step a op).1)
  unfolding step spec_step query_tracker query_data_tracker
  step-Refines s a (add true t d) r = (
    record {
      free = unlocked-add true s t d r.free;
      holds = λ id. ground (arith, contents-add s t d id, r.holds id, r.holds t.pid);
    },
    ap code (add_code s t d),
  )
  step-Refines s a (add false t d) r = unfold tracker_add in (r, refl)
  step-Refines s a (del t) r = (
    record {
      free = unlocked-del s t;
      holds = λ id. ground (arith, contents-del s t id, r.holds id, r.holds t.pid);
    },
    ground (arith, reply-del s t, r.holds t.pid),
  )
  step-Refines s a (query t) r =
      (r, ground (arith, r.free, r.holds t.pid, find_data t.pid (s.tracked_map (bucket_of t.pid))))
  step-Refines s a (query_data t) r =
      (r, ground (arith, r.free, r.holds t.pid, find_data t.pid (s.tracked_map (bucket_of t.pid))))

  run-Refines :
      (ops : List Op) (s : HashTracker) (a : Stacks) → Refines s a → run s ops ≡ spec_run a ops
  unfolding run spec_run
  run-Refines [] s a r = refl
  run-Refines (op ∷ ops) s a r =
      let (r', e) = step-Refines s a op r in
      ap₂ ◌∷◌ e (run-Refines ops (step s op).0 (spec_step a op).0 r')

  -- While the lock is free, no sequence of operations tells the table from the abstract tracker of
  -- its contents.
  run_refines :
      (ops : List Op) (s : HashTracker) → s.lock ≡ false → run s ops ≡ spec_run (contents s) ops
  run_refines ops s h = run-Refines ops s (contents s) (record { free = h; holds = λ id. refl })
