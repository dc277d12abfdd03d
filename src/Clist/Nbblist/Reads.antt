-- ===== src/Clist/Nbblist/Reads.antt =====
-- Reading from the list of client/clist/nbboundedlist.c.
use pmu_min_suite.Prelude.{
  ℕ, ◌+◌, ◌*◌, ◌^◌, ◌≤◌, ◌<◌, ◌≡◌, bit_and, ◌-◌, ◌∙◌, ap, refl, arith, List, some,
}
use pmu_min_suite.Prelude.Bits.{bit_and_fields, zero-bit_and, bit_and-zero}
use pmu_min_suite.Clist.Nbblist.{
  Nbblist, head_mask, head, write_clist, next_idx, read_clist, spinning,
}
use pmu_min_suite.Clist.Nbblist.Bounds.{tail_lem}

-- A list whose word is `idx` below 2 ^ 32 has its head at 0.
head_word : (idx : ℕ) → idx < 2 ^ 32 → bit_and idx head_mask ≡ 0
head_word idx h =
    ap (λ w. bit_and w head_mask) {x = idx} {y = 0 * 2 ^ 32 + idx} (omega arith)
    ∙ bit_and_fields 32 0 idx (2 ^ 32 - 1) 0 h (omega arith)
    ∙ rw (zero-bit_and (2 ^ 32 - 1), bit_and-zero idx) refl

head_low : (idx : ℕ) → idx < 2 ^ 32 → head idx ≡ 0
unfolding head
head_low idx h = omega (arith, head_word idx h)

next_idx-zero :
    (c : Nbblist)
    → c.idx ≡ 0
    → 1 ≤ c.len
    → c.len < 2 ^ 32
    → c.stride < 2 ^ 32
    → next_idx c ≡ c.stride
unfolding next_idx
next_idx-zero c e h1 hl hs = ground (arith, head_low c.idx, tail_lem c.idx)

written_lem :
    (c c' : Nbblist) (bucket : List ℕ)
    → write_clist c bucket ≡ some c'
    → (c'.idx ≡ next_idx c) × (c'.len ≡ c.len)
unfolding write_clist
written_lem c c' bucket e = ground arith

-- The first write adds the stride and not 1 to the tail of an empty list. If the stride is above the
-- number of entries, a read never leaves its loop from then on.
read_clist-write_clist :
    (c c' : Nbblist) (bucket out : List ℕ)
    → c.idx ≡ 0
    → 1 ≤ c.len
    → c.len < c.stride
    → c.stride < 2 ^ 32
    → write_clist c bucket ≡ some c'
    → read_clist c' out ≡ spinning
unfolding read_clist
read_clist-write_clist c c' bucket out e h1 hl hs ew = ground (
  arith,
  written_lem c c' bucket ew,
  next_idx-zero c e h1 (omega arith) hs,
  head_low c'.idx,
  tail_lem c'.idx,
)
