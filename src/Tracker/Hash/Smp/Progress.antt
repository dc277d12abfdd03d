-- ===== src/Tracker/Hash/Smp/Progress.antt =====
-- The queries of ptracker_hash.c, which an interrupt may call: they do not wait for the lock.
use pmu_min_suite.Prelude.{
  ℕ, ◌+◌, ◌≤◌, ◌≡◌, ◌≢◌, refl, sym, ap, ◌∙◌, arith, Bool, none, true, false, Bool-cases, inl, inr,
  if◌then◌else◌, ◌==◌, ==_iff,
}
use pmu_min_suite.Tracker.Hash.Smp.{
  Call, add, del, query, query_data, Pc, idle, waiting, inside, leaving, after, System, tries,
  CallStep, kmalloc, call, lock, trylock_fails, spin, do_work, unlock, free, read, finish_add,
  finish_query, Step, agent, Reach, here, later,
}

abbrev pub is_query : Call → Bool
is_query (add t d node) = false
is_query (del t) = false
is_query (query t) = true
is_query (query_data t) = true

-- The agent is in `query_tracker` or `query_data_tracker`.
unfoldable pub in_query : Pc → Bool
in_query idle = false
in_query (waiting c) = is_query c
in_query (inside c) = is_query c
in_query (leaving c cur) = is_query c
in_query (after c cur) = is_query c

-- How many steps a query has before it, at most.
abbrev pub steps_left : Pc → ℕ
steps_left idle = 0
steps_left (after c cur) = 1
steps_left (leaving c cur) = 2
steps_left (inside c) = 3
steps_left (waiting c) = 4

module _ (bucket_of : ℕ → ℕ) where
  -- 1 for a step of the agent.
  unfoldable pub own : {n : ℕ} {s t : System} → ℕ → Step bucket_of n s t → ℕ
  own i (agent j lt e cs) = if j == i then 1 else 0

  -- How many of the steps of a run an agent makes.
  unfoldable pub steps_of : {n : ℕ} {s t : System} → ℕ → Reach bucket_of n s t → ℕ
  steps_of i here = 0
  steps_of i (later r st) = steps_of i r + own i st

  -- The agent is in no state of the run out of its call.
  unfoldable pub Stays : {n : ℕ} {s t : System} → ℕ → Reach bucket_of n s t → Type 0
  Stays i here = Unit
  Stays i (later {u = u} r st) = Stays i r × (u.pc i ≢ idle)

  CallStep-shorter :
      {s t : System} {p q : Pc}
      → CallStep bucket_of s p t q
      → in_query p ≡ true
      → q ≢ idle
      → (in_query q ≡ true) × (steps_left q + 1 ≤ steps_left p)
  unfolding in_query
  CallStep-shorter (kmalloc t d node nonzero fresh) h b = cc
  CallStep-shorter (call c k) h b = cc
  CallStep-shorter (lock c k) h b = (h, omega arith)
  CallStep-shorter (trylock_fails c k l) h b = (h, omega arith)
  CallStep-shorter (spin (add t d node) k l) h b = cc
  CallStep-shorter (spin (del t) k l) h b = cc
  CallStep-shorter (spin (query t) k l) h b = cc
  CallStep-shorter (spin (query_data t) k l) h b = cc
  CallStep-shorter (do_work c) h b = (h, omega arith)
  CallStep-shorter (unlock c cur) h b = (h, omega arith)
  CallStep-shorter (free t cur) h b = absurd (b refl)
  CallStep-shorter (read t cur) h b = absurd (b refl)
  CallStep-shorter (finish_add t d node cur) h b = absurd (b refl)
  CallStep-shorter (finish_query t cur) h b = absurd (b refl)

  query_tries : (c : Call) → is_query c ≡ true → tries c ≡ true
  query_tries (add t d node) h = cc
  query_tries (del t) h = cc
  query_tries (query t) h = refl
  query_tries (query_data t) h = refl

  -- Whatever the lock is, an agent in a query has a step.
  not_blocked :
      (s : System) (p : Pc)
      → in_query p ≡ true
      → (t : System) × (q : Pc) × CallStep bucket_of s p t q
  unfolding in_query
  not_blocked s idle h = cc
  not_blocked s (waiting c) h = elim (Bool-cases s.table.lock) [
    | inl held ↦ (s, after c none, trylock_fails c (query_tries c h) held)
    | inr unheld ↦ (_, _, lock c unheld)
  ]
  not_blocked s (inside c) h = (_, _, do_work c)
  not_blocked s (leaving c cur) h = (_, _, unlock c cur)
  not_blocked s (after (add t d node) cur) h = cc
  not_blocked s (after (del t) cur) h = cc
  not_blocked s (after (query t) cur) h = (_, _, finish_query t cur)
  not_blocked s (after (query_data t) cur) h = (_, _, read t cur)

  Step-shorter :
      {n : ℕ} {s t : System} (i : ℕ) (st : Step bucket_of n s t)
      → in_query (s.pc i) ≡ true
      → t.pc i ≢ idle
      → (in_query (t.pc i) ≡ true) × (own i st + steps_left (t.pc i) ≤ steps_left (s.pc i))
  unfolding own
  Step-shorter {s} i (agent j {t} {p} {q} lt e cs) h busy = elim (Bool-cases (j == i)) [
    | inl same ↦
        let here_p : s.pc i ≡ p = ap s.pc (sym ((==_iff j i).0 same)) ∙ e in
        let (h', le) = CallStep-shorter cs (ap in_query (sym here_p) ∙ h) (rw same at busy) in
        rw same (h', omega (arith, le, ap (λ (x : Pc). steps_left x) here_p))
    | inr other ↦ rw other (h, omega arith)
  ]

  shorter :
      {n : ℕ} {s t : System} (i : ℕ) (r : Reach bucket_of n s t)
      → in_query (s.pc i) ≡ true
      → Stays i r
      → (in_query (t.pc i) ≡ true) × (steps_of i r + steps_left (t.pc i) ≤ steps_left (s.pc i))
  unfolding steps_of Stays
  shorter i here h stays = (h, omega arith)
  shorter i (later r st) h (stays, busy) =
      let (h', le) = shorter i r h stays in
      let (h'', le') = Step-shorter i st h' busy in (h'', omega arith)

  at_most : (p : Pc) → steps_left p ≤ 4
  at_most p = ground arith

  -- In every run in which an agent begins in a call of `query_tracker` or `query_data_tracker` and has
  -- not left it, it makes at most 4 steps, whatever the other agents do, and it has a next one, whether
  -- the lock is held or not.
  pub query_steps :
      {n : ℕ} {s t : System} (i : ℕ) (r : Reach bucket_of n s t)
      → in_query (s.pc i) ≡ true
      → Stays i r
      → (steps_of i r ≤ 4) × ((u : System) × (q : Pc) × CallStep bucket_of t (t.pc i) u q)
  query_steps {n} {s} {t} i r h stays =
      let (h', le) = shorter i r h stays in
      (omega (arith, at_most (s.pc i)), not_blocked t (t.pc i) h')
