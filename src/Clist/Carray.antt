-- ===== src/Clist/Carray.antt =====
-- client/clist/carray.c: a circular list in one array, for writers that interrupt nobody. The lock is
-- taken and released within a write. `none` is a copy that leaves the buffer or its source.
pub mod Bounds
use pmu_min_suite.Prelude.{
  size_of_int, ℕ, ◌+◌, ◌-◌, ◌*◌, ◌%◌, ◌^◌, Bool, Option, none, some, ◌==◌, if◌then◌else◌, ltb, leb,
  ◌&&◌, List,
}
use pmu_min_suite.Prelude.Lists.{length, take, drop, overwrite}

-- `idx` is the bit pattern of a 32-bit `int`; `buf` holds the bytes after the header.
pub record Carray : Type 0 where
  pub len : ℕ
  pub stride : ℕ
  pub idx : ℕ
  pub buf : List ℕ

abbrev pub sub_size : ℕ → ℕ → ℕ
sub_size a b = (a + 2 ^ 64 - b) % 2 ^ 64

-- `sizeof(struct carray)`: two `size_t`, an `int` and the lock.
abbrev pub header_size : ℕ
header_size = 24

abbrev pub alloc_size : ℕ → ℕ → ℕ
alloc_size entry_count entry_size = (header_size + entry_count * entry_size % 2 ^ 64) % 2 ^ 64

-- `kvmalloc` is the argument: it gives a memory block of the size that it is asked for, or nothing.
-- What follows the header in the block is the buffer.
unfoldable pub init_clist : (ℕ → Option (List ℕ)) → ℕ → ℕ → Option Carray
init_clist kvmalloc entry_count entry_size = elim (kvmalloc (alloc_size entry_count entry_size)) [
  | none ↦ none
  | some block ↦
      some
        (record { len = entry_count; stride = entry_size; idx = 0; buf = drop header_size block })
]

-- `read_clist` of this file returns 0 and touches nothing.
unfoldable pub read_clist : Carray → List ℕ → ℕ × List ℕ
read_clist clist bucket = (0, bucket)

-- Where `write_clist` writes the next entry.
abbrev pub next_idx : Carray → ℕ
next_idx c =
    if ltb (size_of_int c.idx) (sub_size c.len 1)
    then (size_of_int c.idx + c.stride) % 2 ^ 32
    else 0

unfoldable pub write_clist : Carray → List ℕ → Option Carray
write_clist c bucket =
    if leb c.stride (length bucket) && leb (size_of_int c.idx + c.stride) (length c.buf)
    then some (record c {
      buf = overwrite c.buf (size_of_int c.idx) (take c.stride bucket);
      idx = next_idx c;
    })
    else none
