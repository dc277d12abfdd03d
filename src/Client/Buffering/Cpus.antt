-- ===== src/Client/Buffering/Cpus.antt =====
-- Loading and unloading the buffers of client/buffering/bcpu.c.
use pmu_min_suite.Prelude.{
  ℕ, zero, suc, ◌<◌, ◌≡◌, refl, true, Option, none, some, pos, enomem, arith, ◌∙◌, ap,
}
use mathlib.Core.Path.{subst}
use native.Mathlib.Decide.{dec_lt}
use pmu_min_suite.Prelude.Family.{update_self}
use pmu_min_suite.Client.Buffering.{Bcpu, alloc, fill_cpu, fill, fail_rounds, buffering_static_init}

module _ (init_clist : ℕ → ℕ → ℕ → Option ℕ) (entry_size : ℕ) where
  -- The clists of the processors below `n` are allocated, and hold what init_clist gave.
  unfoldable pub IsFilled : ℕ → Bcpu → Type 0
  IsFilled n b =
      (cpu a : ℕ)
      → cpu < n
      → alloc init_clist entry_size cpu ≡ some a
      → (b.pcpu_clist cpu ≡ some a) × (b.live a ≡ true)

  fill-suc :
      (n : ℕ) (b : Bcpu)
      → (fill init_clist entry_size n b).1 ≡ none
      → (fill init_clist entry_size (suc n) b) ≡ (
        fill_cpu init_clist entry_size (fill init_clist entry_size n b).0 n,
        elim (alloc init_clist entry_size n) [ none ↦ some n | some a ↦ none ],
      )
  unfolding fill
  fill-suc n b e = rw e refl

  fill_cpu-IsFilled :
      (n a : ℕ) (b : Bcpu)
      → alloc init_clist entry_size n ≡ some a
      → IsFilled n b
      → IsFilled (suc n) (fill_cpu init_clist entry_size b n)
  unfolding IsFilled
  fill_cpu-IsFilled n a b ea f cpu c lt ec = ground (arith, f cpu c)

  fill-all :
      (n : ℕ) (b : Bcpu)
      → ((cpu : ℕ) → cpu < n → (a : ℕ) × (alloc init_clist entry_size cpu ≡ some a))
      → ((fill init_clist entry_size n b).1 ≡ none) × IsFilled n (fill init_clist entry_size n b).0
  unfolding fill IsFilled
  fill-all zero b h = (refl, λ cpu a lt e. absurd (omega arith))
  fill-all (suc n) b h =
      let (e, f) = fill-all n b (λ cpu lt. h cpu (omega arith)) in
      let (a, ea) = h n (omega arith) in
      rw (fill-suc n b e)
        ((rw ea refl, fill_cpu-IsFilled n a (fill init_clist entry_size n b).0 ea f))

  fill-skip :
      (n c : ℕ) (b b' : Bcpu)
      → fill init_clist entry_size n b ≡ (b', some c)
      → fill init_clist entry_size (suc n) b ≡ (b', some c)
  unfolding fill
  fill-skip n c b b' e =
      ap
        (λ r. elim r.1 [
          | some cpu ↦ (r.0, some cpu)
          | none ↦ (
            fill_cpu init_clist entry_size r.0 n,
            elim (alloc init_clist entry_size n) [ none ↦ some n | some a ↦ none ],
          )
        ])
        e

  fill-stop :
      (c n : ℕ) (b : Bcpu)
      → c < n
      → ((cpu : ℕ) → cpu < c → (a : ℕ) × (alloc init_clist entry_size cpu ≡ some a))
      → alloc init_clist entry_size c ≡ none
      → fill init_clist entry_size n b
        ≡ (fill_cpu init_clist entry_size (fill init_clist entry_size c b).0 c, some c)
  fill-stop c zero b lt h e = absurd (omega arith)
  fill-stop c (suc n) b lt h e = elim (dec_lt c n) [
    | yes l ↦ fill-skip n c b _ (fill-stop c n b l h e)
    | no ge ↦
        subst
          (λ k.
            fill init_clist entry_size (suc k) b
            ≡ (fill_cpu init_clist entry_size (fill init_clist entry_size c b).0 c, some c))
          (omega arith) (fill-suc c b (fill-all c b h).0 ∙ rw e refl)
  ]

  fail_rounds-none :
      (c n : ℕ) (b : Bcpu) → b.pcpu_clist c ≡ none → fail_rounds init_clist entry_size c n b ≡ b
  unfolding fail_rounds
  fail_rounds-none c zero b h = refl
  fail_rounds-none c (suc n) b h = rw (fail_rounds-none c n b h, h) refl

  -- If every allocation succeeds, loading returns 0, and each processor holds the clist that
  -- init_clist gave for it, which is allocated.
  pub buffering_static_init_lem :
      (n : ℕ) (b : Bcpu)
      → ((cpu : ℕ) → cpu < n → (a : ℕ) × (alloc init_clist entry_size cpu ≡ some a))
      → ((buffering_static_init init_clist entry_size n b).1 ≡ pos 0)
        × IsFilled n (buffering_static_init init_clist entry_size n b).0
  unfolding buffering_static_init
  buffering_static_init_lem n b h =
      let (e, f) = fill-all n b h in rw (e, buffering_static_init) (refl, f)

  live-fill :
      (c : ℕ) (b : Bcpu)
      → ((cpu : ℕ) → cpu < c → (a : ℕ) × (alloc init_clist entry_size cpu ≡ some a))
      → (cpu a : ℕ) → cpu < c
      → alloc init_clist entry_size cpu ≡ some a
      → (fill init_clist entry_size c b).0.live a ≡ true
  unfolding IsFilled
  live-fill c b h cpu a l ea = ((fill-all c b h).1 cpu a l ea).1

  failed_cpu :
      (c : ℕ) (b : Bcpu)
      → alloc init_clist entry_size c ≡ none
      → (fill_cpu init_clist entry_size (fill init_clist entry_size c b).0 c).pcpu_clist c ≡ none
  failed_cpu c b e =
      update_self (fill init_clist entry_size c b).0.pcpu_clist c (alloc init_clist entry_size c)
      ∙ e

  static_init-stop :
      (c n : ℕ) (b b' : Bcpu)
      → fill init_clist entry_size n b ≡ (b', some c)
      → b'.pcpu_clist c ≡ none
      → buffering_static_init init_clist entry_size n b ≡ (b', enomem)
  unfolding buffering_static_init
  static_init-stop c n b b' e h =
      ap
        (λ r. elim r.1 [
          | none ↦ (r.0, pos 0)
          | some cpu ↦ (fail_rounds init_clist entry_size cpu cpu r.0, enomem)
        ])
        e
      ∙ rw (fail_rounds-none c c b' h) refl

  -- If the allocation for processor `c` is the first that fails, loading returns -ENOMEM, and the
  -- clists of the processors before `c` are still allocated: the loop that should free them passes
  -- the pointer of `c`, which is NULL, each time.
  buffering_static_init-leaks :
      (c n : ℕ) (b : Bcpu)
      → c < n
      → ((cpu : ℕ) → cpu < c → (a : ℕ) × (alloc init_clist entry_size cpu ≡ some a))
      → alloc init_clist entry_size c ≡ none
      → ((buffering_static_init init_clist entry_size n b).1 ≡ enomem)
        × ((cpu a : ℕ)
            → cpu < c
            → alloc init_clist entry_size cpu ≡ some a
            → (buffering_static_init init_clist entry_size n b).0.live a ≡ true)
  buffering_static_init-leaks c n b lt h e =
      let b' = fill_cpu init_clist entry_size (fill init_clist entry_size c b).0 c in
      rw (static_init-stop c n b b' (fill-stop c n b lt h e) (failed_cpu c b e))
        (refl, λ cpu a l ea. rw e (live-fill c b h cpu a l ea))
