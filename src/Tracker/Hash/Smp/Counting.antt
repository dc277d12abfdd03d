-- ===== src/Tracker/Hash/Smp/Counting.antt =====
-- The counter and the buckets of ptracker_hash.c under any number of agents.
use pmu_min_suite.Prelude.{ℕ, ◌<◌, ◌≡◌, refl, ◌∙◌, arith, false, List, [], ◌∷◌}
use mathlib.Core.Path.{subst}
use pmu_min_suite.Prelude.Family.{total-eq-zero}
use pmu_min_suite.Tracker.Hash.{HashTracker, spin_unlock}
use pmu_min_suite.Tracker.Hash.Stacks.{Op, step}
use pmu_min_suite.Tracker.Hash.Count.{length, nr_buckets, IsCounted, add-IsCounted, del-IsCounted}
use pmu_min_suite.Tracker.Hash.Smp.{System, Entry, initialized, Reach}
use pmu_min_suite.Tracker.Hash.Smp.Linear.{replay, initialized-IsLinear, Reach-IsLinear}

module _ (bucket_of : ℕ → ℕ) (bounded : (id : ℕ) → bucket_of id < nr_buckets) where
  step-IsCounted :
      (s : HashTracker) (op : Op)
      → IsCounted bucket_of bounded s
      → IsCounted bucket_of bounded (step bucket_of s op).0
  unfolding step
  step-IsCounted s (Op.add alloc t d) v = add-IsCounted bucket_of bounded alloc s t d v
  step-IsCounted s (Op.del t) v = del-IsCounted bucket_of bounded s t v
  step-IsCounted s (Op.query t) v = v
  step-IsCounted s (Op.query_data t) v = v

  replay-IsCounted : (log : List Entry) → IsCounted bucket_of bounded (replay bucket_of log)
  unfolding replay
  replay-IsCounted [] = record {
    free = refl;
    counted = omega (arith, total-eq-zero length nr_buckets (λ b. []) (λ i lt. refl));
    placed = λ b. tt;
  }
  replay-IsCounted (e ∷ older) =
      step-IsCounted (replay bucket_of older) e.op (replay-IsCounted older)

  unlocked : (s : HashTracker) → s.lock ≡ false → spin_unlock s ≡ s
  unfolding spin_unlock
  unlocked s e = cc

  -- In every state that any number of agents reach and in which the lock is free, each node is in the
  -- bucket of its pid, and the counter is the number of nodes modulo 2^32.
  pub Reach-IsCounted :
      {n : ℕ} {s : System}
      → Reach bucket_of n initialized s
      → s.table.lock ≡ false
      → IsCounted bucket_of bounded s.table
  Reach-IsCounted {n} {s} r unheld =
      let h = Reach-IsLinear bucket_of (initialized-IsLinear bucket_of n) r in
      subst (IsCounted bucket_of bounded) (h.replayed ∙ unlocked s.table unheld)
        (replay-IsCounted s.log)
