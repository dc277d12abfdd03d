-- ===== src/Tracker/Hash.antt =====
-- ptracker_hash.c: the tracker that keeps a node for each tracked pid in a hash table of 256
-- buckets, under a spin lock. The bucket that the kernel's `hash_min` chooses for a pid is the
-- parameter `bucket_of`, and whether `kmalloc` succeeds is the argument `alloc`.
pub mod Stacks
pub mod Count
pub mod Map
pub mod Smp
use pmu_min_suite.Prelude.{
  ℕ, ◌+◌, ◌-◌, ◌%◌, ◌^◌, Bool, true, false, Option, none, some, ◌==◌, if◌then◌else◌, ℤ, pos, enomem,
  is_some, List, [], ◌∷◌,
}
use pmu_min_suite.Prelude.Family.{update}
use pmu_min_suite.Tracker.Task.{Task}

pub record TpNode : Type 0 where
  pub id : ℕ
  pub data_ptr : ℕ

-- `tracked_count` is the bit pattern of a 32-bit `int`. `lock` tells whether the lock is held.
pub record HashTracker : Type 0 where
  pub tracked_map : ℕ → List TpNode
  pub tracked_count : ℕ
  pub lock : Bool

unfoldable pub spin_lock : HashTracker → HashTracker
spin_lock s = record s { lock = true }

unfoldable pub spin_unlock : HashTracker → HashTracker
spin_unlock s = record s { lock = false }

abbrev pub count_up : ℕ → ℕ
count_up n = (n + 1) % 2 ^ 32

abbrev pub count_down : ℕ → ℕ
count_down n = (n + 2 ^ 32 - 1) % 2 ^ 32

-- The loop over a bucket that stops at the first node of a pid.
unfoldable pub find_node : ℕ → List TpNode → Option TpNode
find_node id [] = none
find_node id (cur ∷ next) = if cur.id == id then some cur else find_node id next

-- `hash_del` of the node at which that loop stops.
pub unlink_node : ℕ → List TpNode → List TpNode
unlink_node id [] = []
unlink_node id (cur ∷ next) = if cur.id == id then next else cur ∷ unlink_node id next

module _ (bucket_of : ℕ → ℕ) where
  -- `hash_add` puts the node at the head of its bucket.
  unfoldable pub hash_add : (ℕ → List TpNode) → TpNode → ℕ → ℕ → List TpNode
  hash_add map tp id = update map (bucket_of id) (tp ∷ map (bucket_of id))

  pub hash_del : (ℕ → List TpNode) → ℕ → ℕ → List TpNode
  hash_del map id = update map (bucket_of id) (unlink_node id (map (bucket_of id)))

  pub tracker_add : Bool → HashTracker → Task → ℕ → HashTracker × ℤ
  tracker_add alloc s task data_ptr =
      if alloc
      then (
        (let locked = spin_lock s in
            let tp : TpNode = record { id = task.pid; data_ptr = data_ptr } in
            spin_unlock (record locked {
              tracked_map = hash_add locked.tracked_map tp task.pid;
              tracked_count = count_up locked.tracked_count;
            })),
        pos 0,
      )
      else (s, enomem)

  pub tracker_del : HashTracker → Task → HashTracker × ℕ
  tracker_del s task =
      let locked = spin_lock s in
      elim (find_node task.pid (locked.tracked_map (bucket_of task.pid))) [
        | none ↦ (spin_unlock locked, 0)
        | some cur ↦ (
          spin_unlock (record locked {
            tracked_map = hash_del locked.tracked_map task.pid;
            tracked_count = count_down locked.tracked_count;
          }),
          cur.data_ptr,
        )
      ]

  -- `spin_trylock_irqsave` fails while the lock is held.
  pub query_tracker : HashTracker → Task → Bool
  query_tracker s task =
      if s.lock then false else is_some (find_node task.pid (s.tracked_map (bucket_of task.pid)))

  pub query_data_tracker : HashTracker → Task → ℕ
  query_data_tracker s task =
      if s.lock then 0 else elim (find_node task.pid (s.tracked_map (bucket_of task.pid))) [
        | none ↦ 0
        | some cur ↦ cur.data_ptr
      ]

-- `hash_init` and `spin_lock_init`; `tracked_count` is a static that starts at 0.
pub tracker_init : HashTracker → HashTracker × ℤ
tracker_init s = (record s { tracked_map = λ b. []; lock = false }, pos 0)
