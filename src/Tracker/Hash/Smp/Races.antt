-- ===== src/Tracker/Hash/Smp/Races.antt =====
-- What the lock of ptracker_hash.c leaves open.
use pmu_min_suite.Prelude.{ℕ, ◌≡◌, ◌≢◌, refl, arith, false, none, some, List, []}
use pmu_min_suite.Prelude.Family.{update}
use pmu_min_suite.Tracker.Task.{Task}
use pmu_min_suite.Tracker.Hash.{TpNode, spin_lock, spin_unlock, find_node, hash_add}
use pmu_min_suite.Tracker.Hash.Stacks.{flag}
use pmu_min_suite.Tracker.Hash.Smp.{
  answer, add, query, Pc, waiting, after, System, initialized, work, CallStep, kmalloc, call, lock,
  do_work, unlock, trylock_fails, finish_add, agent, Reach, here, later,
}

module _ (bucket_of : ℕ → ℕ) where
  -- Agent `i` goes on by one step.
  abbrev next : (i : ℕ) (s t : System) (q : Pc) → System
  next i s t q = record t { pc = update s.pc i q }

  found_added :
      (t : Task) (node : ℕ) (map : ℕ → List TpNode)
      → find_node t.pid
          (hash_add bucket_of map (record { id = t.pid; data_ptr = node }) t.pid (bucket_of t.pid))
        ≡ some (record { id = t.pid; data_ptr = node })
  unfolding hash_add find_node
  found_added t node map = ground arith

  -- With two agents, one can come to the lock in a query of a task that the table has, find the lock
  -- held, and go on in one step with the answer of a task that is not tracked.
  pub missed_query :
      (t : Task) (d node : ℕ)
      → node ≢ 0
      → (s u : System) × (q : Pc) × Reach bucket_of 2 initialized s
        × (s.pc 0 ≡ waiting (query t))
        × (find_node t.pid (s.table.tracked_map (bucket_of t.pid))
            ≡ some (record { id = t.pid; data_ptr = node }))
        × CallStep bucket_of s (waiting (query t)) u q
        × (answer q ≡ some (flag false))
  unfolding spin_lock spin_unlock work answer
  missed_query t d node nonzero = (
    _,
    _,
    after (query t) none,
    (later
        (later
          (later
            (later
              (later
                (later
                  (later (later here (agent 0 (omega arith) refl (kmalloc t d node nonzero refl)))
                    (agent 0 (omega arith) refl (lock (add t d node) refl)))
                  (agent 0 (omega arith) refl (do_work (add t d node))))
                (agent 0 (omega arith) refl (unlock (add t d node) _)))
              (agent 0 (omega arith) refl (finish_add t d node _)))
            (agent 0 (omega arith) refl (call (query t) refl)))
          (agent 1 (omega arith) refl (call (query t) refl)))
        (agent 1 (omega arith) refl (lock (query t) refl))),
    refl,
    found_added t node (λ b. []),
    trylock_fails (query t) refl refl,
    refl,
  )
