-- ===== src/Prelude/Family.antt =====
-- Families `ℕ → A`, for memory by address, buckets by number and values by processor.
use Prim.Native.Nat.{◌<◌, ◌≤◌, ◌+◌, suc, zero, ℕ}
use mathlib.Core.Path.{◌≡◌, refl}
use mathlib.Core.Logic.{◌≢◌}
use native.Mathlib.Decide.{dec_lt}
use native.Mathlib.Omega.{arith}
use pmu_min_suite.Prelude.Tests.{◌==◌, if◌then◌else◌}

module _ {ℓ} {A : Type ℓ} where
  abbrev pub update : (ℕ → A) → ℕ → A → ℕ → A
  update members k new other = if k == other then new else members other

  pub update_self : (members : ℕ → A) (k : ℕ) (new : A) → update members k new k ≡ new
  update_self members k new = ground arith

  pub update_ne :
      (members : ℕ → A) (k other : ℕ) (new : A)
      → k ≢ other
      → update members k new other ≡ members other
  update_ne members k other new le = ground arith

-- The sum of a weight over the first `count` members.
module _ {ℓ} {A : Type ℓ} (weight : A → ℕ) where
  unfoldable pub total : ℕ → (ℕ → A) → ℕ
  total zero members = 0
  total (suc count) members = weight (members count) + total count members

  total-update_above :
      (count : ℕ) (members : ℕ → A) (k : ℕ) (new : A)
      → count ≤ k
      → total count (update members k new) ≡ total count members
  unfolding total
  total-update_above zero members k new le = refl
  total-update_above (suc count) members k new le =
      ground (arith, total-update_above count members k new)

  -- A change of one member changes the sum by the difference of the weights.
  pub total-update :
      (count : ℕ) (members : ℕ → A) (k : ℕ) (new : A)
      → k < count
      → total count (update members k new) + weight (members k) ≡ total count members + weight new
  unfolding total
  total-update zero members k new le = absurd (omega arith)
  total-update (suc count) members k new le = elim (dec_lt k count) [
    | yes below ↦ ground (arith, total-update count members k new below)
    | no at_end ↦ ground (arith, total-update_above count members k new)
  ]

  pub weight-le-total :
      (count : ℕ) (members : ℕ → A) (k : ℕ) → k < count → weight (members k) ≤ total count members
  unfolding total
  weight-le-total zero members k le = absurd (omega arith)
  weight-le-total (suc count) members k le = elim (dec_lt k count) [
    | yes below ↦ omega (arith, weight-le-total count members k below)
    | no at_end ↦ ground arith
  ]

  pub total-eq-zero :
      (count : ℕ) (members : ℕ → A)
      → ((k : ℕ) → k < count → weight (members k) ≡ 0)
      → total count members ≡ 0
  unfolding total
  total-eq-zero zero members le = refl
  total-eq-zero (suc count) members le =
      omega
        (arith, le count (omega arith), total-eq-zero count members (λ k lt. le k (omega arith)))

  -- A sum that is not zero has a member whose weight is not zero.
  pub total-positive :
      (count : ℕ) (members : ℕ → A)
      → 0 < total count members
      → (k : ℕ) × (k < count) × (0 < weight (members k))
  unfolding total
  total-positive zero members pos = absurd (omega arith)
  total-positive (suc count) members pos = elim (dec_lt 0 (weight (members count))) [
    | yes here ↦ (count, omega arith, here)
    | no empty ↦
        let (k, lt, found) = total-positive count members (omega arith) in (k, omega arith, found)
  ]
