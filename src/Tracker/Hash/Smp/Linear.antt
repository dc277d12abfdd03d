-- ===== src/Tracker/Hash/Smp/Linear.antt =====
-- The lock of ptracker_hash.c: one agent at a time, and the calls in the order of their work as one
-- sequence of calls of the sequential tracker.
use pmu_min_suite.Prelude.{
  none, ℕ, ◌<◌, ◌≡◌, refl, sym, ap, ◌∙◌, arith, Bool, false, if◌then◌else◌, List, [], ◌∷◌,
}
use native.Mathlib.Decide.{ℕ_discrete}
use pmu_min_suite.Prelude.Family.{update, total, total-update, weight-le-total, total-eq-zero}
use pmu_min_suite.Tracker.Hash.{
  HashTracker, spin_lock, spin_unlock, tracker_add, tracker_del, query_tracker, query_data_tracker,
}
use pmu_min_suite.Tracker.Hash.Stacks.{
  step, Stacks, spec_step, of_pid, contents, Refines, step-Refines,
}
use pmu_min_suite.Tracker.Hash.Smp.{
  Call, add, del, query, query_data, Pc, idle, waiting, inside, leaving, after, Entry, System,
  initialized, op_of, reply_of, work, logged, CallStep, kmalloc, call, lock, trylock_fails, spin,
  do_work, unlock, free, read, finish_add, finish_query, Step, agent, Reach, here, later,
}

-- 1 for an agent that has the lock.
abbrev pub holding : Pc → ℕ
holding (inside c) = 1
holding (leaving c cur) = 1
holding _ = 0

abbrev pub taken : Bool → ℕ
taken held = if held then 1 else 0

-- The abstract tracker after the calls of a log.
unfoldable pub stacks : List Entry → Stacks
stacks [] id = []
stacks (e ∷ older) id = (spec_step (stacks older) e.op).0 id

-- Each answer of a log is the one of the abstract tracker at its place.
unfoldable pub Explained : List Entry → Type 0
Explained [] = Unit
Explained (e ∷ older) = ((spec_step (stacks older) e.op).1 ≡ e.reply) × Explained older

module _ (bucket_of : ℕ → ℕ) where
  -- The table after the calls of a log, the lock free.
  unfoldable pub replay : List Entry → HashTracker
  replay [] = initialized.table
  replay (e ∷ older) = (step bucket_of (replay older) e.op).0

  -- Each answer of a log is the one of the sequential tracker at its place.
  unfoldable pub Agrees : List Entry → Type 0
  Agrees [] = Unit
  Agrees (e ∷ older) = ((step bucket_of (replay older) e.op).1 ≡ e.reply) × Agrees older

  -- The work of a call on a locked table is the operation on the table with the lock free.
  step-work :
      (c : Call) (s : HashTracker)
      → (step bucket_of (spin_unlock s) (op_of c)).0 ≡ spin_unlock (work bucket_of c s).0
        × ((step bucket_of (spin_unlock s) (op_of c)).1 ≡ reply_of c (work bucket_of c s).1)
  unfolding step work tracker_add tracker_del query_tracker query_data_tracker spin_lock spin_unlock
  step-work (add t d node) s = (refl, refl)
  step-work (del t) s = ground arith
  step-work (query t) s = ground arith
  step-work (query_data t) s = ground arith

  -- The lock is held exactly while an agent is between taking and releasing it, and the table is what
  -- the calls of the log make.
  pub record IsLinear (n : ℕ) (s : System) : Type 0 where
    pub exclusive : total holding n s.pc ≡ taken s.table.lock
    pub replayed : replay s.log ≡ spin_unlock s.table
    pub agrees : Agrees s.log

  keeps_lock : (c : Call) (s : HashTracker) → (work bucket_of c s).0.lock ≡ s.lock
  unfolding work
  keeps_lock (add t d node) s = refl
  keeps_lock (del t) s = ground arith
  keeps_lock (query t) s = refl
  keeps_lock (query_data t) s = refl

  exclusive_step :
      {n : ℕ} {s t : System} {p q : Pc} (i : ℕ)
      → i < n
      → s.pc i ≡ p
      → CallStep bucket_of s p t q
      → total holding n s.pc ≡ taken s.table.lock
      → total holding n (update s.pc i q) ≡ taken t.table.lock
  unfolding spin_lock spin_unlock
  exclusive_step {n} {s} i lt e (kmalloc t d node nonzero fresh) h =
      ground (arith, total-update holding n s.pc i (waiting (add t d node)) lt)
  exclusive_step {n} {s} i lt e (call c k) h =
      ground (arith, total-update holding n s.pc i (waiting c) lt)
  exclusive_step {n} {s} i lt e (lock c k) h =
      ground (arith, total-update holding n s.pc i (inside c) lt)
  exclusive_step {n} {s} i lt e (trylock_fails c k l) h =
      ground (arith, total-update holding n s.pc i (after c none) lt)
  exclusive_step {n} {s} i lt e (spin c k l) h =
      ground (arith, total-update holding n s.pc i (waiting c) lt)
  exclusive_step {n} {s} i lt e (do_work c) h = ground (
    arith,
    keeps_lock c s.table,
    total-update holding n s.pc i (leaving c (work bucket_of c s.table).1) lt,
  )
  exclusive_step {n} {s} i lt e (unlock c cur) h =
      ground (arith, total-update holding n s.pc i (after c cur) lt)
  exclusive_step {n} {s} i lt e (free t cur) h =
      ground (arith, total-update holding n s.pc i idle lt)
  exclusive_step {n} {s} i lt e (read t cur) h =
      ground (arith, total-update holding n s.pc i idle lt)
  exclusive_step {n} {s} i lt e (finish_add t d node cur) h =
      ground (arith, total-update holding n s.pc i idle lt)
  exclusive_step {n} {s} i lt e (finish_query t cur) h =
      ground (arith, total-update holding n s.pc i idle lt)

  -- What a step keeps of the table and the log.
  IsReplayed : System → Type 0
  IsReplayed s = (replay s.log ≡ spin_unlock s.table) × Agrees s.log

  work-IsReplayed : (c : Call) (s : System) → IsReplayed s → IsReplayed (logged bucket_of s c)
  unfolding IsReplayed replay Agrees
  work-IsReplayed c s (same, agrees) =
      let (table, reply) = step-work c s.table in
      (
        ap (λ (r : HashTracker). (step bucket_of r (op_of c)).0) same ∙ table,
        (ap (λ (r : HashTracker). (step bucket_of r (op_of c)).1) same ∙ reply, agrees),
      )

  CallStep-IsReplayed :
      {s t : System} {p q : Pc} → CallStep bucket_of s p t q → IsReplayed s → IsReplayed t
  unfolding IsReplayed spin_lock spin_unlock
  CallStep-IsReplayed (kmalloc t d node nonzero fresh) h = h
  CallStep-IsReplayed (call c k) h = h
  CallStep-IsReplayed (lock c k) h = h
  CallStep-IsReplayed (trylock_fails c k l) h = h
  CallStep-IsReplayed (spin c k l) h = h
  CallStep-IsReplayed {s} (do_work c) h = work-IsReplayed c s h
  CallStep-IsReplayed (unlock c cur) h = h
  CallStep-IsReplayed (free t cur) h = h
  CallStep-IsReplayed (read t cur) h = h
  CallStep-IsReplayed (finish_add t d node cur) h = h
  CallStep-IsReplayed (finish_query t cur) h = h

  Step-IsLinear : {n : ℕ} {s t : System} → Step bucket_of n s t → IsLinear n s → IsLinear n t
  unfolding IsReplayed
  Step-IsLinear (agent i lt e st) h =
      let (same, agrees) = CallStep-IsReplayed st (h.replayed, h.agrees) in
      record { exclusive = exclusive_step i lt e st h.exclusive; replayed = same; agrees = agrees }

  pub initialized-IsLinear : (n : ℕ) → IsLinear n initialized
  unfolding replay Agrees spin_unlock
  initialized-IsLinear n = record {
    exclusive = total-eq-zero holding n initialized.pc (λ i lt. refl);
    replayed = refl;
    agrees = tt;
  }

  pub Reach-IsLinear : {n : ℕ} {s t : System} → IsLinear n s → Reach bucket_of n s t → IsLinear n t
  Reach-IsLinear h here = h
  Reach-IsLinear h (later r st) = Step-IsLinear st (Reach-IsLinear h r)

  empty_contents : (id : ℕ) → contents bucket_of initialized.table id ≡ []
  unfolding of_pid
  empty_contents id = refl

  replay-Refines :
      (log : List Entry) → Agrees log → Refines bucket_of (replay log) (stacks log) × Explained log
  unfolding replay Agrees stacks Explained
  replay-Refines [] h = (record { free = refl; holds = λ id. empty_contents id }, tt)
  replay-Refines (e ∷ older) (reply, h) =
      let (refines, explained) = replay-Refines older h in
      let (refines', same) = step-Refines bucket_of (replay older) (stacks older) e.op refines in
      (refines', (sym same ∙ reply, explained))

  -- In every state that any number of agents reach, the calls whose work is done are, in the order of
  -- their work, a sequence of calls of the abstract tracker, a stack of nodes for each pid: it gives
  -- each of them the answer that its agent found, and while the lock is free the table holds for
  -- each pid what these calls leave.
  pub log_refines :
      {n : ℕ} {s : System}
      → Reach bucket_of n initialized s
      → Explained s.log
        × (s.table.lock ≡ false → (id : ℕ) → contents bucket_of s.table id ≡ stacks s.log id)
  unfolding spin_unlock
  log_refines {n} {s} r =
      let h = Reach-IsLinear (initialized-IsLinear n) r in
      let (refines, explained) = replay-Refines s.log h.agrees in
      (
        explained,
        λ free id.
            ap (λ (w : HashTracker). contents bucket_of w id) (sym h.replayed) ∙ refines.holds id,
      )

  -- No two agents are between taking and releasing the lock.
  lock_exclusive :
      {n : ℕ} {s : System} (i j : ℕ)
      → Reach bucket_of n initialized s
      → i < n
      → j < n
      → holding (s.pc i) ≡ 1
      → holding (s.pc j) ≡ 1
      → i ≡ j
  lock_exclusive {n} {s} i j r lt lt' hi hj = elim (ℕ_discrete i j) [
    | yes same ↦ same
    | no other ↦ absurd (
        ground (
          arith,
          (Reach-IsLinear (initialized-IsLinear n) r).exclusive,
          total-update holding n s.pc i idle lt,
          weight-le-total holding n (update s.pc i idle) j lt',
        ))
  ]
