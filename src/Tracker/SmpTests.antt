-- ===== src/Tracker/SmpTests.antt =====
-- The hash tracker on two agents at concrete inputs.
use pmu_min_suite.Prelude.{pos, ◌≤◌, ℕ, ◌%◌, ◌<◌, ◌≡◌, ◌≢◌, refl, arith, true, false, some, [], ◌∷◌}
use pmu_min_suite.Prelude.Family.{update, total}
use pmu_min_suite.Tracker.Task.{Task}
use pmu_min_suite.Tracker.Hash.{TpNode, find_node, hash_add, spin_lock, spin_unlock}
use pmu_min_suite.Tracker.Hash.Stacks.{flag, Op, code, ptr, contents}
use pmu_min_suite.Tracker.Hash.Smp.{
  answer, Call, add, del, query, Pc, idle, waiting, inside, leaving, after, System, initialized,
  logged, work, CallStep, kmalloc, call, lock, do_work, unlock, agent, Reach, here, later,
}
use pmu_min_suite.Tracker.Hash.Smp.Linear.{Explained, stacks, log_refines}
use pmu_min_suite.Tracker.Hash.Smp.Owners.{owned, in_bucket, present, nodes_owned}
use pmu_min_suite.Tracker.Hash.Smp.Races.{missed_query}
use pmu_min_suite.Tracker.Hash.Smp.Progress.{in_query, steps_of, Stays, query_steps}
use pmu_min_suite.Tracker.Hash.Smp.Counting.{Reach-IsCounted}
use pmu_min_suite.Tracker.Hash.Count.{nr_buckets, IsCounted}

abbrev bucket : ℕ → ℕ
bucket id = id % 256

abbrev task : Task
task = record { addr = 6; pid = 5; stack = 2 }

-- Agent 0 adds the task with the data 40, and agent 1 then removes it.
abbrev adding : Call
adding = add task 40 64

abbrev allocated : System
allocated = record initialized {
  heap = update initialized.heap 64 (some 40);
  pc = update initialized.pc 0 (waiting adding);
}

abbrev put_in : System
put_in = record (logged bucket (record allocated { table = spin_lock allocated.table }) adding) {
  pc = update (update allocated.pc 0 (inside adding)) 0 (leaving adding (some 64));
}

abbrev there : System
there = record put_in {
  table = spin_unlock put_in.table;
  pc = update put_in.pc 0 (after adding (some 64));
}

abbrev asked : System
asked = record there { pc = update there.pc 1 (waiting (del task)) }

abbrev taken_out : System
taken_out = record (logged bucket (record asked { table = spin_lock asked.table }) (del task)) {
  pc = update (update asked.pc 1 (inside (del task))) 1 (leaving (del task) (some 64));
}

abbrev unlocked : System
unlocked = record taken_out {
  table = spin_unlock taken_out.table;
  pc = update taken_out.pc 1 (after (del task) (some 64));
}

put_in-Reach : Reach bucket 2 initialized put_in
unfolding work spin_lock spin_unlock find_node hash_add
put_in-Reach =
    later
      (later (later here (agent 0 (omega arith) refl (kmalloc task 40 64 (omega arith) refl)))
        (agent 0 (omega arith) refl (lock adding refl)))
      (agent 0 (omega arith) refl (do_work adding))

unlocked-Reach : Reach bucket 2 initialized unlocked
unfolding work spin_lock spin_unlock find_node hash_add
unlocked-Reach =
    later
      (later
        (later
          (later (later put_in-Reach (agent 0 (omega arith) refl (unlock adding (some 64))))
            (agent 1 (omega arith) refl (call (del task) refl)))
          (agent 1 (omega arith) refl (lock (del task) refl)))
        (agent 1 (omega arith) refl (do_work (del task))))
      (agent 1 (omega arith) refl (unlock (del task) (some 64)))

log_refines_example :
    Explained unlocked.log
    × (unlocked.table.lock ≡ false
        → (id : ℕ) → contents bucket unlocked.table id ≡ stacks unlocked.log id)
log_refines_example = log_refines bucket unlocked-Reach

nodes_owned_example :
    ((id : ℕ) (cur : TpNode)
      → find_node id (unlocked.table.tracked_map (bucket id)) ≡ some cur
      → (d : ℕ) × (unlocked.heap cur.data_ptr ≡ some d))
    × ((i node : ℕ) (t : Task)
        → i < 2
        → unlocked.pc i ≡ after (del t) (some node)
        → ((d : ℕ) × (unlocked.heap node ≡ some d))
          × (total (in_bucket node) 256 unlocked.table.tracked_map ≡ 0)
          × ((j : ℕ) → j < 2 → j ≢ i → owned node (unlocked.pc j) ≡ 0))
    × (((i : ℕ) → i < 2 → unlocked.pc i ≡ idle)
        → (a : ℕ) → total (in_bucket a) 256 unlocked.table.tracked_map ≡ present (unlocked.heap a))
nodes_owned_example = nodes_owned bucket (λ id. omega arith) unlocked-Reach

unlocked_log :
    unlocked.log
    ≡ record { op = Op.del task; reply = ptr 64 }
      ∷ record { op = Op.add true task 64; reply = code (pos 0) }
      ∷ []
unfolding work find_node hash_add spin_lock spin_unlock
unlocked_log = refl

missed_query_example :
    (s u : System) × (q : Pc) × Reach bucket 2 initialized s
    × (s.pc 0 ≡ waiting (query task))
    × (find_node 5 (s.table.tracked_map 5) ≡ some (record { id = 5; data_ptr = 64 }))
    × CallStep bucket s (waiting (query task)) u q
    × (answer q ≡ some (flag false))
missed_query_example = missed_query bucket task 40 64 (omega arith)

bucket-lt : (id : ℕ) → bucket id < nr_buckets
bucket-lt id = omega arith

Reach-IsCounted_example : IsCounted bucket bucket-lt unlocked.table
unfolding spin_unlock
Reach-IsCounted_example = Reach-IsCounted bucket bucket-lt unlocked-Reach refl

-- Agent 0 asks for the task and takes the lock.
abbrev queried : System
queried = record initialized { pc = update initialized.pc 0 (waiting (query task)) }

abbrev has_lock : System
has_lock = record queried {
  table = spin_lock queried.table;
  pc = update queried.pc 0 (inside (query task));
}

takes_lock : Reach bucket 2 queried has_lock
takes_lock = later here (agent 0 (omega arith) refl (lock (query task) refl))

query_steps_example :
    (steps_of bucket 0 takes_lock ≤ 4)
    × ((u : System) × (q : Pc) × CallStep bucket has_lock (inside (query task)) u q)
unfolding in_query Stays takes_lock
query_steps_example = query_steps bucket 0 takes_lock refl (tt, λ e. cc)
