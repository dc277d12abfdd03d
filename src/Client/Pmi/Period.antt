-- ===== src/Client/Pmi/Period.antt =====
-- The distance to the overflow of the counter that client/pmi.c and client/pmu.c set, and the
-- parameter of client/params.c that it comes from.
use pmu_min_suite.Prelude.{
  ℕ, ◌+◌, ◌-◌, ◌%◌, ◌^◌, ◌≤◌, ◌≡◌, refl, List, arith, ℤ, pos, Bool, true, all_below,
  all_below_sound, ◌==◌, ==_iff,
}
use mathlib.Core.Path.{subst}
use pmu_min_suite.Prelude.Bits.{bit_and_mask}
use pmu_min_suite.Client.Pmu.{Settings, bit, complement, pmc_trim}
use pmu_min_suite.Client.Params.{reset_period_set}

pmc_trim_lem : (n : ℕ) → pmc_trim n ≡ n % 2 ^ 48
unfolding pmc_trim
pmc_trim_lem n = bit_and_mask 48 n

-- The value that is written to the counter of the interrupt.
abbrev pub armed : ℕ → ℕ
armed period = pmc_trim (pmc_trim (complement period))

armed_lem : (p : ℕ) → armed p ≡ (2 ^ 64 - 1 - p) % 2 ^ 48
armed_lem p = rw (pmc_trim_lem (pmc_trim (complement p)), pmc_trim_lem (complement p)) (omega arith)

overflows_after : ℕ → Bool
overflows_after x = (2 ^ 64 - 1 - (bit (x + 12) - 1)) % 2 ^ 48 + 2 ^ (x + 12) == 2 ^ 48

period_table : all_below 37 overflows_after ≡ true
unfolding all_below overflows_after
period_table = refl

armed-bit : (v : ℕ) → 12 ≤ v → v ≤ 48 → armed (bit v - 1) + 2 ^ v ≡ 2 ^ 48
unfolding overflows_after
armed-bit v h k = rw (armed_lem (bit v - 1)) (
    (==_iff _ _).0 (
      subst (λ x. ((2 ^ 64 - 1 - (bit x - 1)) % 2 ^ 48 + 2 ^ x == 2 ^ 48) ≡ true) (omega arith)
        (all_below_sound 37 overflows_after (v - 12) period_table (omega arith))))

-- Setting the parameter `reset_period` to a number `v` that the kernel reads and that is from 12 to
-- 48 is accepted, and from then on the counter that raises the interrupt is set so that it overflows
-- after exactly `2 ^ v` events.
armed-reset_period_set :
    (configure : Settings → Settings) (kstrtoint : List ℕ → ℤ × ℤ) (s : Settings) (str : List ℕ)
    (v : ℕ)
    → kstrtoint str ≡ (pos 0, pos v)
    → 12 ≤ v
    → v ≤ 48
    → ((reset_period_set configure kstrtoint s str).1 ≡ pos 0)
      × (armed (reset_period_set configure kstrtoint s str).0.reset_period + 2 ^ v ≡ 2 ^ 48)
unfolding reset_period_set
armed-reset_period_set configure kstrtoint s str v e h k =
    rw (e, reset_period_set) (ground (arith, armed-bit v h k))
