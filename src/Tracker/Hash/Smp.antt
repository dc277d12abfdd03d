-- ===== src/Tracker/Hash/Smp.antt =====
-- ptracker_hash.c on many processors, one lock operation or access to shared memory at a time. An
-- agent is a processor, or an interrupt on one that asks for a task. The nodes in memory are known by
-- their addresses, and `data_ptr` of a node in the table stands for the address of that node.
pub mod Linear
pub mod Owners
pub mod Races
pub mod Counting
pub mod Progress
use pmu_min_suite.Prelude.{
  ℕ, ◌<◌, ◌≡◌, ◌≢◌, Bool, true, false, Option, none, some, is_some, pos, List, [], ◌∷◌,
}
use pmu_min_suite.Prelude.Family.{update}
use pmu_min_suite.Tracker.Task.{Task}
use pmu_min_suite.Tracker.Contract.{or_null}
use pmu_min_suite.Tracker.Hash.{
  TpNode, HashTracker, spin_lock, spin_unlock, count_up, count_down, find_node, hash_add, hash_del,
}
use pmu_min_suite.Tracker.Hash.Stacks.{Op, Reply, code, ptr, flag}

-- A call of an operation; `add` has the data and the node that `kmalloc` gave.
pub data Call : Type 0 where
  add : Task → ℕ → ℕ → Call
  del : Task → Call
  query : Task → Call
  query_data : Task → Call

-- Where an agent stands in a call, with the node `cur` that the loop over the bucket stopped at.
pub data Pc : Type 0 where
  idle : Pc  -- in no call
  waiting : Call → Pc  -- before the lock
  inside : Call → Pc  -- has the lock; the work on the table is next
  leaving : Call → Option ℕ → Pc  -- has the lock and has done the work
  after : Call → Option ℕ → Pc  -- is out of the lock: has released it, or never got it

-- An operation and what the loop over the bucket found for it, as the sequential tracker puts it.
pub record Entry : Type 0 where
  pub op : Op
  pub reply : Reply

-- `heap` gives the data of the node at an address, and `none` where there is no node. `log` has the
-- calls whose work is done, the latest first.
pub record System : Type 0 where
  pub table : HashTracker
  pub heap : ℕ → Option ℕ
  pub log : List Entry
  pub pc : ℕ → Pc

-- After `tracker_init`.
abbrev pub initialized : System
initialized = record {
  table = record { tracked_map = λ b. []; tracked_count = 0; lock = false };
  heap = λ a. none;
  log = [];
  pc = λ i. idle;
}

abbrev pub op_of : Call → Op
op_of (add t d node) = Op.add true t node
op_of (del t) = Op.del t
op_of (query t) = Op.query t
op_of (query_data t) = Op.query_data t

abbrev pub reply_of : Call → Option ℕ → Reply
reply_of (add t d node) cur = code (pos 0)
reply_of (del t) cur = ptr (or_null cur)
reply_of (query t) cur = flag (is_some cur)
reply_of (query_data t) cur = ptr (or_null cur)

-- What an agent that is out of the lock returns.
unfoldable pub answer : Pc → Option Reply
answer (after c cur) = some (reply_of c cur)
answer _ = none

-- `spin_trylock_irqsave` and not `spin_lock_irqsave`.
abbrev pub tries : Call → Bool
tries (add t d node) = false
tries (del t) = false
tries (query t) = true
tries (query_data t) = true

abbrev pub allocates : Call → Bool
allocates (add t d node) = true
allocates _ = false

abbrev pub address : Option TpNode → Option ℕ
address none = none
address (some cur) = some cur.data_ptr

-- `kfree(cur)`, if a node was found.
abbrev pub kfree : (ℕ → Option ℕ) → Option ℕ → ℕ → Option ℕ
kfree heap none = heap
kfree heap (some node) = update heap node none

module _ (bucket_of : ℕ → ℕ) where
  -- What a call does with the table between taking and releasing the lock.
  unfoldable pub work : Call → HashTracker → HashTracker × Option ℕ
  work (add t d node) s = (
    record s {
      tracked_map = hash_add bucket_of s.tracked_map (record { id = t.pid; data_ptr = node }) t.pid;
      tracked_count = count_up s.tracked_count;
    },
    some node,
  )
  work (del t) s = elim (find_node t.pid (s.tracked_map (bucket_of t.pid))) [
    | none ↦ (s, none)
    | some cur ↦ (
      record s {
        tracked_map = hash_del bucket_of s.tracked_map t.pid;
        tracked_count = count_down s.tracked_count;
      },
      some cur.data_ptr,
    )
  ]
  work (query t) s = (s, address (find_node t.pid (s.tracked_map (bucket_of t.pid))))
  work (query_data t) s = (s, address (find_node t.pid (s.tracked_map (bucket_of t.pid))))

  abbrev pub logged : System → Call → System
  logged s c = record s {
    table = (work c s.table).0;
    log = record { op = op_of c; reply = reply_of c (work c s.table).1 } ∷ s.log;
  }

  -- One step of an agent, from its place to the next. An `add` without memory is over at once.
  pub data CallStep (s : System) : Pc → System → Pc → Type 0 where
    kmalloc :
        (t : Task) (d node : ℕ)
        → node ≢ 0
        → s.heap node ≡ none
        → CallStep s idle (record s { heap = update s.heap node (some d) }) (waiting (add t d node))
    call : (c : Call) → allocates c ≡ false → CallStep s idle s (waiting c)
    lock :
        (c : Call)
        → s.table.lock ≡ false
        → CallStep s (waiting c) (record s { table = spin_lock s.table }) (inside c)
    trylock_fails :
        (c : Call) → tries c ≡ true → s.table.lock ≡ true → CallStep s (waiting c) s (after c none)
    spin : (c : Call) → tries c ≡ false → s.table.lock ≡ true → CallStep s (waiting c) s (waiting c)
    do_work : (c : Call) → CallStep s (inside c) (logged s c) (leaving c (work c s.table).1)
    unlock :
        (c : Call) (cur : Option ℕ)
        → CallStep s (leaving c cur) (record s { table = spin_unlock s.table }) (after c cur)
    free :
        (t : Task) (cur : Option ℕ)
        → CallStep s (after (del t) cur) (record s { heap = kfree s.heap cur }) idle
    read : (t : Task) (cur : Option ℕ) → CallStep s (after (query_data t) cur) s idle
    finish_add :
        (t : Task) (d node : ℕ) (cur : Option ℕ) → CallStep s (after (add t d node) cur) s idle
    finish_query : (t : Task) (cur : Option ℕ) → CallStep s (after (query t) cur) s idle

  -- `n` agents, interleaved in any order.
  pub data Step (n : ℕ) (s : System) : System → Type 0 where
    agent :
        (i : ℕ) {t : System} {p q : Pc}
        → i < n
        → s.pc i ≡ p
        → CallStep s p t q
        → Step n s (record t { pc = update s.pc i q })

  pub data Reach (n : ℕ) (s : System) : System → Type 0 where
    here : Reach n s s
    later : {t u : System} → Reach n s t → Step n t u → Reach n s u
