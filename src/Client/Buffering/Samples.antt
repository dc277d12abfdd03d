-- ===== src/Client/Buffering/Samples.antt =====
-- The samples of client/buffering/bcpu.c, from loading on: each is written on some processor to the
-- clist of that processor.
use pmu_min_suite.Prelude.{
  ℕ, ◌≤◌, ◌<◌, ◌≡◌, refl, Option, none, some, List, [], ◌∷◌, arith, ◌==◌, pos, ◌*◌, ◌/◌, Bool-cases,
  inl, inr, ap, ◌%◌,
}
use native.Mathlib.Decide.{ℕ_discrete}
use native.Mathlib.Nat.{div-add-mod', mod-lt}
use pmu_min_suite.Prelude.Lists.{length}
use pmu_min_suite.Prelude.Family.{update}
use pmu_min_suite.Clist.Contract.{Clist, GivesSize}
use pmu_min_suite.Client.Buffering.{Bcpu, buffering_static_init, buff_entries, global_buffer_size}
use pmu_min_suite.Client.Buffering.Heap.{Heap, write_at}
use pmu_min_suite.Client.Buffering.Cpus.{IsFilled, buffering_static_init_lem}

div-add-mod'-zero : (n m : ℕ) → n / m ≡ 0 → n % m ≡ n
div-add-mod'-zero n m e = omega (arith, div-add-mod' n m, ap (λ (t : ℕ). t * m) e)

div-mul-le : (n m : ℕ) → n / m * m ≤ n
div-mul-le n m = omega (arith, div-add-mod' n m)

1-le-div : (n m : ℕ) → 1 ≤ m → m ≤ n → 1 ≤ n / m
1-le-div n m h le = elim (ℕ_discrete (n / m) 0) [
  | yes e ↦ absurd (omega (arith, small e, mod-lt n {m = m} h))
  | no ne ↦ omega arith
]
  where
    small : n / m ≡ 0 → n % m ≡ n
    small e = div-add-mod'-zero n m e

module _ (T : Clist) where
  -- On the processor `cpu`. The function returns 0.
  unfoldable pub write_sample : Bcpu → Heap T → ℕ → List ℕ → Option (Heap T)
  write_sample b heap cpu sample = elim (b.pcpu_clist cpu) [
    | none ↦ none
    | some a ↦ write_at T heap a sample
  ]

  -- Samples with the processors that take them.
  unfoldable pub write_samples : Bcpu → Heap T → List (ℕ × List ℕ) → Option (Heap T)
  write_samples b heap [] = some heap
  write_samples b heap ((cpu, sample) ∷ rest) = elim (write_sample b heap cpu sample) [
    | none ↦ none
    | some heap' ↦ write_samples b heap' rest
  ]

  -- A clist that is there, is well formed, and reads no more than `size` bytes of a sample.
  unfoldable pub HoldsAt : ℕ → Heap T → ℕ → Type 0
  HoldsAt size heap a = (c : T.State) × (heap a ≡ some c) × T.IsOk c × (T.reads c ≤ size)

  abbrev pub AllFit : ℕ → ℕ → List (ℕ × List ℕ) → Type 0
  AllFit nr_cpus size [] = Unit
  AllFit nr_cpus size ((cpu, sample) ∷ rest) =
      (cpu < nr_cpus) × (size ≤ length sample) × AllFit nr_cpus size rest

  write_at_lem :
      (a : ℕ) (heap : Heap T) (sample : List ℕ) (c c' : T.State)
      → heap a ≡ some c
      → T.write_clist c sample ≡ some c'
      → write_at T heap a sample ≡ some (update heap a (some c'))
  write_at_lem a heap sample c c' e w = ground arith

  update-HoldsAt :
      (size a b : ℕ) (heap : Heap T) (c' : T.State)
      → T.IsOk c'
      → T.reads c' ≤ size
      → HoldsAt size heap b
      → HoldsAt size (update heap a (some c')) b
  unfolding HoldsAt
  update-HoldsAt size a b heap c' ok' fits' (c, e, ok, fits) = elim (Bool-cases (a == b)) [
    | inl same ↦ (c', rw same refl, ok', fits')
    | inr other ↦ (c, rw other e, ok, fits)
  ]

  write_at-HoldsAt :
      (size a : ℕ) (heap : Heap T) (sample : List ℕ)
      → HoldsAt size heap a
      → size ≤ length sample
      → (heap' : Heap T) × (write_at T heap a sample ≡ some heap')
        × ((b : ℕ) → HoldsAt size heap b → HoldsAt size heap' b)
  unfolding HoldsAt
  write_at-HoldsAt size a heap sample (c, e, ok, fits) h =
      let (c', w, ok', same) = T.write-IsOk c sample ok (omega arith) in
      (
        update heap a (some c'),
        write_at_lem a heap sample c c' e w,
        λ b. update-HoldsAt size a b heap c' ok' (omega arith),
      )

  -- A processor below `n` has its clist.
  unfoldable pub AllHold : ℕ → ℕ → Bcpu → Heap T → Type 0
  AllHold n size b heap =
      (cpu : ℕ) → cpu < n → (a : ℕ) × (b.pcpu_clist cpu ≡ some a) × HoldsAt size heap a

  pub write_sample-AllHold :
      (n size cpu : ℕ) (b : Bcpu) (heap : Heap T) (sample : List ℕ)
      → AllHold n size b heap
      → cpu < n
      → size ≤ length sample
      → (heap' : Heap T) × (write_sample b heap cpu sample ≡ some heap') × AllHold n size b heap'
  unfolding write_sample AllHold
  write_sample-AllHold n size cpu b heap sample hold lt h =
      let (a, e, held) = hold cpu lt in
      let (heap', w, keeps) = write_at-HoldsAt size a heap sample held h in
      (
        heap',
        rw (e, write_sample) w,
        λ other lt'. let (a', e', held') = hold other lt' in (a', e', keeps a' held'),
      )

  write_samples-AllHold :
      (n size : ℕ) (b : Bcpu) (heap : Heap T) (samples : List (ℕ × List ℕ))
      → AllHold n size b heap
      → AllFit n size samples
      → (heap' : Heap T) × (write_samples b heap samples ≡ some heap') × AllHold n size b heap'
  unfolding write_samples
  write_samples-AllHold n size b heap [] hold fit = (heap, refl, hold)
  write_samples-AllHold n size b heap ((cpu, sample) ∷ rest) hold fit =
      let (heap', w, hold') = write_sample-AllHold n size cpu b heap sample hold fit.0 fit.1 in
      let (heap'', ws, hold'') = write_samples-AllHold n size b heap' rest hold' fit.2 in
      (heap'', rw (w, write_samples) ws, hold'')

  -- For every list that meets the interface: if each allocation of loading succeeds with a clist that
  -- init_clist makes in memory of the size asked for, then loading returns 0, and from then on no
  -- series of samples of at least the size given to loading, on any of the processors, leaves a clist
  -- or uses one that is not there.
  pub write_samples-buffering_static_init :
      (init_clist : ℕ → ℕ → ℕ → Option ℕ) (kvmalloc : ℕ → Option (List ℕ)) (n entry_size : ℕ)
      (b : Bcpu) (heap : Heap T) (samples : List (ℕ × List ℕ))
      → GivesSize kvmalloc
      → 1 ≤ entry_size
      → entry_size ≤ global_buffer_size
      → ((cpu : ℕ)
          → cpu < n
          → (a : ℕ) × (c : T.State) × (init_clist cpu
                (buff_entries global_buffer_size entry_size)
                entry_size
              ≡ some a)
            × (T.init_clist kvmalloc (buff_entries global_buffer_size entry_size) entry_size
                ≡ some c)
            × (heap a ≡ some c))
      → AllFit n entry_size samples
      → ((buffering_static_init init_clist entry_size n b).1 ≡ pos 0)
        × ((heap' : Heap T) × (write_samples
                (buffering_static_init init_clist entry_size n b).0
                heap
                samples
              ≡ some heap'))
  unfolding IsFilled HoldsAt AllHold
  write_samples-buffering_static_init init_clist kvmalloc n entry_size b heap samples hk h1 hs made
        fit =
      let (code, filled) =
        buffering_static_init_lem init_clist entry_size n b
          (λ cpu lt. let (a, c, ea, ec, eh) = made cpu lt in (a, ea)) in
      let (heap', w, hold) =
        write_samples-AllHold n entry_size (buffering_static_init init_clist entry_size n b).0 heap
          samples
          (λ cpu lt.
            let (a, c, ea, ec, eh) = made cpu lt in
            let (ok, fits) =
              T.init-IsOk kvmalloc (buff_entries global_buffer_size entry_size) entry_size c hk
                (1-le-div global_buffer_size entry_size h1 hs) h1
                (omega (arith, div-mul-le global_buffer_size entry_size)) ec in
            (a, (filled cpu a lt ea).0, (c, eh, ok, fits)))
          fit in
      (code, (heap', w))
