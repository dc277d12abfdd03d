-- ===== src/Tools/Mmapr.antt =====
-- tools/mmapr.c: reading the mapped buffer in strides. `raw_buff` gives the bytes of the area, which
-- has `size` of them.
pub mod Rounds
use pmu_min_suite.Prelude.{
  ℕ, zero, suc, ◌+◌, ◌-◌, Bool, true, false, if◌then◌else◌, ltb, not, ℤ, pos, negsuc,
}
use pmu_min_suite.Tools.{Outcome, spinning, undefined, returned, printed, char_value, add_64}

-- The loops of one pass end with a sum, are still running, or read outside of the area.
pub data Pass : Type 0 where
  running : Pass
  outside : Pass
  summed : ℕ → Pass

module _ (raw_buff : ℕ → ℕ) (size : ℕ) where
  -- `sum += raw_buff[j]`
  abbrev pub add_at : ℕ → Pass → Pass
  add_at j running = running
  add_at j outside = outside
  add_at j (summed sum) =
      if ltb j size then summed (add_64 sum (char_value (raw_buff j))) else outside

  -- The loop over `j`, which starts at 0 in each round.
  unfoldable pub add_first : ℕ → ℕ → Pass
  add_first zero sum = summed sum
  add_first (suc j) sum = add_at j (add_first j sum)

  -- The loop behind, from `i` to the end of the area, with `n` rounds left: it reads at `j`.
  unfoldable pub add_rest : ℕ → ℕ → Pass → Pass
  add_rest j zero p = p
  add_rest j (suc n) p = add_at j (add_rest j n p)

  unfoldable pub pass : ℕ → ℕ → ℕ → ℕ → Pass
  pass stride zero i sum = running
  pass stride (suc fuel) i sum = elim (ltb i size) [
    | false ↦ add_rest stride (size - i) (summed sum)
    | true ↦ elim (add_first stride sum) [
      | running ↦ running
      | outside ↦ outside
      | summed sum' ↦ pass stride fuel (i + stride) sum'
    ]
  ]

  -- `while (times--)`, for a positive count. A negative stride makes `i` overflow.
  unfoldable pub passes : ℤ → ℕ → ℕ → ℕ → Pass
  passes stride fuel zero sum = summed sum
  passes (negsuc n) fuel (suc times) sum = outside
  passes (pos stride) fuel (suc times) sum = elim (pass stride fuel 0 sum) [
    | running ↦ running
    | outside ↦ outside
    | summed sum' ↦ passes (pos stride) fuel times sum'
  ]

pub record MapApi : Type 0 where
  pub fd : ℤ
  pub mmap : Bool
  pub munmap : Bool

-- `fd < 0`
abbrev pub is_negative : ℤ → Bool
is_negative (pos n) = false
is_negative (negsuc n) = true

abbrev pub finish : MapApi → Pass → Outcome
finish api running = spinning
finish api outside = undefined
finish api (summed sum) = if api.munmap then printed sum else returned (negsuc 0)

unfoldable pub mmap_reader : MapApi → (ℕ → ℕ) → ℕ → ℕ → ℤ → ℕ → Outcome
mmap_reader api raw_buff size fuel stride times =
    if is_negative api.fd
    then returned (negsuc 0)
    else if not api.mmap
    then returned (negsuc 0)
    else finish api (passes raw_buff size stride fuel times 0)
