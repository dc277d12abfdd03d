-- ===== src/Tracker/Stack/Words.antt =====
-- The bit operations of ptracker_stack.c as arithmetic on the fields of a word.
use pmu_min_suite.Prelude.{
  ℕ, ◌+◌, ◌-◌, ◌*◌, ◌/◌, ◌%◌, ◌^◌, ◌<◌, ◌≡◌, refl, true, not, ◌==◌, ltb, all_below, all_below_sound,
  if◌then◌else◌, bit_and, bit_or, bit_xor, arith,
}
use native.Mathlib.Nat.{one-le-pow}
use pmu_min_suite.Prelude.Bits.{
  bit_and_fields, bit_or_fields, bit_xor_fields, bit_or-zero, bit_xor-zero, zero-bit_and,
  zero-bit_or, mask-bit_or, bit_and_comm, bit_and-zero, bit_and_mask,
}
use pmu_min_suite.Tracker.Stack.{
  shl, shr, complement, ptr_used_mask, ptr_free_mask, ptr_thr_bit, ptr_crc_mask, ptr_ccb_mask,
  process_mask, enabled_mask, crc_magic, any_bit, check_crc, build_ptr, magic_entry,
}

-- The 14 bits that `set_crc` computes from the low 14.
abbrev pub crc_of : ℕ → ℕ
crc_of w = bit_xor (w % 2 ^ 14) crc_magic

small_xor_table : all_below 16 (λ x. ltb (bit_xor x 12) 16) ≡ true
unfolding all_below
small_xor_table = refl

small_xor : (x : ℕ) → x < 16 → bit_xor x 12 < 16
small_xor x h = ground (arith, all_below_sound 16 _ x small_xor_table h)

pub crc_of-lt : (w : ℕ) → crc_of w < 2 ^ 14
crc_of-lt w = ground (
  arith,
  bit_xor_fields 4 (w % 2 ^ 14 / 16) (w % 2 ^ 14 % 16) 0 12,
  bit_xor-zero (w % 2 ^ 14 / 16),
  small_xor (w % 2 ^ 14 % 16),
)

and-ccb_mask : (w : ℕ) → bit_and w ptr_ccb_mask ≡ w % 2 ^ 14
and-ccb_mask w = bit_and_mask 14 w

and-used_mask : (w : ℕ) → bit_and w ptr_used_mask ≡ w % 2 ^ 48
and-used_mask w = bit_and_mask 48 w

crc_field : (w : ℕ) → shr (bit_and w ptr_crc_mask) 48 ≡ w / 2 ^ 48 % 2 ^ 14
crc_field w = ground (
  arith,
  bit_and_fields 48 (w / 2 ^ 48) (w % 2 ^ 48) (2 ^ 14 - 1) 0,
  bit_and_mask 14 (w / 2 ^ 48),
  bit_and-zero (w % 2 ^ 48),
)

pub check_crc_iff : (w : ℕ) → check_crc w ≡ (crc_of w == w / 2 ^ 48 % 2 ^ 14)
unfolding check_crc
check_crc_iff w = rw (and-ccb_mask w, crc_field w)

and-bit : (k w : ℕ) → bit_and w (2 ^ k) ≡ w / 2 ^ k % 2 * 2 ^ k
and-bit k w = ground (
  arith,
  one-le-pow k 2,
  bit_and_fields k (w / 2 ^ k) (w % 2 ^ k) 1 0,
  bit_and_mask 1 (w / 2 ^ k),
  bit_and-zero (w % 2 ^ k),
)

pub any_bit-enabled : (w : ℕ) → w < 2 ^ 64 → any_bit w enabled_mask ≡ not (w / 2 ^ 63 == 0)
any_bit-enabled w h = ground (arith, and-bit 63 w)

any_bit-thr : (w : ℕ) → any_bit w ptr_thr_bit ≡ not (w / 2 ^ 47 % 2 == 0)
any_bit-thr w = ground (arith, and-bit 47 w)

or-free_mask : (w : ℕ) → w < 2 ^ 64 → bit_or ptr_free_mask w ≡ ptr_free_mask + w % 2 ^ 48
or-free_mask w h = ground (
  arith,
  bit_or_fields 48 (2 ^ 16 - 1) 0 (w / 2 ^ 48) (w % 2 ^ 48),
  zero-bit_or (w % 2 ^ 48),
  mask-bit_or 16 (w / 2 ^ 48),
)

-- The canonical form: bit 47 is copied to the bits above it.
pub build_ptr_lem :
    (w : ℕ)
    → w < 2 ^ 64
    → build_ptr w ≡ (if w / 2 ^ 47 % 2 == 0 then w % 2 ^ 48 else (2 ^ 64 - 2 ^ 48 + w % 2 ^ 48))
unfolding build_ptr
build_ptr_lem w h =
    ground (arith, any_bit-thr w, or-free_mask w h, bit_and_comm ptr_used_mask w, and-used_mask w)

module _ (d : ℕ) where
  abbrev used : ℕ
  used = d % 2 ^ 48

  -- The word after each statement of `patch_thread_stack`.
  signed_lem : bit_or used (shl (crc_of d) 48) ≡ used + crc_of d * 2 ^ 48
  signed_lem = ground (
    arith,
    crc_of-lt d,
    bit_or_fields 48 0 used (crc_of d) 0,
    zero-bit_or (crc_of d),
    bit_or-zero used,
  )

  unprocessed_lem : (s : ℕ) → s < 2 ^ 62 → bit_and s (complement process_mask) ≡ s
  unprocessed_lem s h =
      ground (arith, bit_and_fields 62 0 s 2 (2 ^ 62 - 1), zero-bit_and 2, bit_and_mask 62 s)

  enabled_lem : (s : ℕ) → s < 2 ^ 62 → bit_or s enabled_mask ≡ s + 2 ^ 63
  enabled_lem s h = ground (arith, bit_or_fields 63 0 s 1 0, zero-bit_or 1, bit_or-zero s)

  pub magic_entry_lem : magic_entry d ≡ d % 2 ^ 48 + crc_of d * 2 ^ 48 + 2 ^ 63
  unfolding magic_entry
  magic_entry_lem =
      rw
        (
          and-used_mask d,
          and-ccb_mask used,
          low_of_used,
          signed_lem,
          unprocessed_lem (used + crc_of d * 2 ^ 48) (omega (arith, crc_of-lt d)),
          enabled_lem (used + crc_of d * 2 ^ 48) (omega (arith, crc_of-lt d)),
        )
        refl
    where
      low_of_used : used % 2 ^ 14 ≡ d % 2 ^ 14
      low_of_used = omega arith
