-- ===== src/Tools/Mmapr/Rounds.antt =====
-- The loops of tools/mmapr.c.
use pmu_min_suite.Prelude.{
  ℕ, zero, suc, ◌+◌, ◌-◌, ◌*◌, ◌%◌, ◌^◌, ◌≤◌, ◌<◌, ◌≡◌, refl, true, false, pos, arith, ◌∙◌, ap,
}
use native.Mathlib.Decide.{dec_lt}
use pmu_min_suite.Tools.{spinning, printed, char_value}
use pmu_min_suite.Tools.Mmapr.{
  running, summed, add_first, add_rest, pass, passes, MapApi, is_negative, mmap_reader,
}

-- The sum of the first `n` bytes.
unfoldable pub sum_of_first : (ℕ → ℕ) → ℕ → ℕ
sum_of_first raw_buff zero = 0
sum_of_first raw_buff (suc n) = sum_of_first raw_buff n + char_value (raw_buff n)

module _ (raw_buff : ℕ → ℕ) (size : ℕ) where
  add_first_lem :
      (n sum : ℕ)
      → n ≤ size
      → sum < 2 ^ 64
      → add_first raw_buff size n sum ≡ summed ((sum + sum_of_first raw_buff n) % 2 ^ 64)
  unfolding add_first sum_of_first
  add_first_lem zero sum h hs = ground arith
  add_first_lem (suc n) sum h hs = ground (arith, add_first_lem n sum)

  -- The rounds of a pass from `i` on.
  Rounds : ℕ → ℕ → ℕ → Type 0
  Rounds stride fuel i =
      (n : ℕ) × (size ≤ i + n * stride)
      × (i + n * stride < size + stride)
      × ((sum : ℕ)
          → sum < 2 ^ 64
          → pass raw_buff size stride fuel i sum
            ≡ summed ((sum + n * sum_of_first raw_buff stride) % 2 ^ 64))

  pass_end :
      (stride fuel i sum : ℕ) → size ≤ i → pass raw_buff size stride (suc fuel) i sum ≡ summed sum
  unfolding pass add_rest
  pass_end stride fuel i sum h = ground (arith, no_rest i h)
    where
      no_rest : (k : ℕ) → size ≤ k → size - k ≡ 0
      no_rest k hk = omega arith

  pass_round :
      (stride fuel i sum : ℕ)
      → i < size
      → stride ≤ size
      → sum < 2 ^ 64
      → pass raw_buff size stride (suc fuel) i sum
        ≡ pass raw_buff size stride fuel
            (i + stride)
            ((sum + sum_of_first raw_buff stride) % 2 ^ 64)
  unfolding pass
  pass_round stride fuel i sum h hs hsum = ground (arith, add_first_lem stride sum hs hsum)

  no_round : (stride fuel i : ℕ) → size ≤ i → i < size + stride → Rounds stride (suc fuel) i
  unfolding Rounds
  no_round stride fuel i h hi = (
    0,
    omega arith,
    omega arith,
    λ sum hsum. pass_end stride fuel i sum h ∙ ap summed (omega arith),
  )

  pass_lem :
      (stride fuel i : ℕ)
      → 1 ≤ stride
      → stride ≤ size
      → i < size + stride
      → size ≤ i + fuel
      → Rounds stride (suc fuel) i
  unfolding Rounds
  pass_lem stride zero i h1 hs hi hf = no_round stride zero i (omega arith) hi
  pass_lem stride (suc fuel) i h1 hs hi hf = elim (dec_lt i size) [
    | no ge ↦ no_round stride (suc fuel) i (omega arith) hi
    | yes lt ↦
        let (n, above, below, ends) =
          pass_lem stride fuel (i + stride) h1 hs (omega arith) (omega arith) in
        (
          suc n,
          omega arith,
          omega arith,
          λ sum hsum.
              pass_round stride (suc fuel) i sum lt hs hsum
              ∙ ends ((sum + sum_of_first raw_buff stride) % 2 ^ 64) (omega arith)
              ∙ ap summed (omega arith),
        )
  ]

  passes_lem :
      (stride fuel n times sum : ℕ)
      → ((acc : ℕ)
          → acc < 2 ^ 64
          → pass raw_buff size stride fuel 0 acc
            ≡ summed ((acc + n * sum_of_first raw_buff stride) % 2 ^ 64))
      → sum < 2 ^ 64
      → passes raw_buff size (pos stride) fuel times sum
        ≡ summed ((sum + times * (n * sum_of_first raw_buff stride)) % 2 ^ 64)
  unfolding passes
  passes_lem stride fuel n zero sum h hs = ap summed (omega arith)
  passes_lem stride fuel n (suc times) sum h hs =
      rw (h sum hs, passes)
        (passes_lem stride fuel n times ((sum + n * sum_of_first raw_buff stride) % 2 ^ 64) h
            (omega arith)
          ∙ ap summed (omega arith))

  -- With a positive stride that is not above the size of the area and fuel for one round more than
  -- the area has bytes, the program ends and prints, modulo 2 ^ 64, the sum of the first `stride`
  -- bytes, taken once for each stride that begins in the area and all that as often as asked: it
  -- reads no other bytes.
  mmap_reader_lem :
      (api : MapApi) (fuel stride times : ℕ)
      → is_negative api.fd ≡ false
      → api.mmap ≡ true
      → api.munmap ≡ true
      → 1 ≤ stride
      → stride ≤ size
      → size < fuel
      → (n : ℕ) × (size ≤ n * stride)
        × (n * stride < size + stride)
        × (mmap_reader api raw_buff size fuel (pos stride) times
            ≡ printed (times * (n * sum_of_first raw_buff stride) % 2 ^ 64))
  unfolding mmap_reader Rounds
  mmap_reader_lem api zero stride times hf hm hu h1 hs hfuel = absurd (omega arith)
  mmap_reader_lem api (suc fuel) stride times hf hm hu h1 hs hfuel =
      let (n, above, below, ends) = pass_lem stride fuel 0 h1 hs (omega arith) (omega arith) in
      (n, omega arith, omega arith, ground (arith, passes_lem stride (suc fuel) n times 0 ends))

  pass_spins : (fuel sum : ℕ) → 0 < size → pass raw_buff size 0 fuel 0 sum ≡ running
  unfolding pass add_first
  pass_spins zero sum h = refl
  pass_spins (suc fuel) sum h = ground (arith, pass_spins fuel sum)

  -- With stride 0 the program never leaves its loop.
  pub mmap_reader_spins :
      (api : MapApi) (fuel times : ℕ)
      → is_negative api.fd ≡ false
      → api.mmap ≡ true
      → 0 < size
      → 1 ≤ times
      → mmap_reader api raw_buff size fuel (pos 0) times ≡ spinning
  unfolding mmap_reader passes
  mmap_reader_spins api fuel zero hf hm hs ht = absurd (omega arith)
  mmap_reader_spins api fuel (suc times) hf hm hs ht = ground (arith, pass_spins fuel 0 hs)
