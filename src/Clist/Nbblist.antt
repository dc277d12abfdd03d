-- ===== src/Clist/Nbblist.antt =====
-- client/clist/nbboundedlist.c: a circular list whose head and tail share one word, the head in its
-- upper half. A write takes its place by one atomic addition, so the writers of a list are a
-- sequence of writes in the order of these additions. `none` is a copy that leaves the buffer or its
-- source, or a remainder by 0.
pub mod Bounds
pub mod Reads
use pmu_min_suite.Prelude.{
  ℕ, ◌+◌, ◌-◌, ◌*◌, ◌/◌, ◌%◌, ◌^◌, Option, none, some, ◌==◌, if◌then◌else◌, leb, ltb, ◌&&◌, List,
  bit_and,
}
use pmu_min_suite.Prelude.Lists.{length, take, drop, overwrite}

pub record Nbblist : Type 0 where
  pub stride : ℕ
  pub len : ℕ
  pub idx : ℕ
  pub buf : List ℕ

abbrev pub tail_mask : ℕ
tail_mask = 2 ^ 32 - 1

abbrev pub head_mask : ℕ
head_mask = 2 ^ 64 - 2 ^ 32

unfoldable pub tail : ℕ → ℕ
tail t = bit_and t tail_mask

unfoldable pub head : ℕ → ℕ
head h = bit_and h head_mask / 2 ^ 32

-- `sizeof(struct nbblist)`
abbrev header_size : ℕ
header_size = 24

-- `kvmalloc` is the argument: a memory block of the size that it is asked for, or nothing. What
-- follows the header in the block is the buffer.
unfoldable pub init_clist : (ℕ → Option (List ℕ)) → ℕ → ℕ → Option Nbblist
init_clist kvmalloc entry_count entry_size =
    elim (kvmalloc ((header_size + entry_count * entry_size % 2 ^ 64) % 2 ^ 64)) [
      | none ↦ none
      | some block ↦
          some (record {
            stride = entry_size;
            len = entry_count;
            idx = 0;
            buf = drop header_size block;
          })
    ]

-- `buf[stride * (n % len)]`
abbrev pub entry : Nbblist → ℕ → ℕ
entry c n = c.stride * (n % c.len) % 2 ^ 64

-- The new word: after `xadd`, and moved on at the head if the list was full before.
unfoldable pub next_idx : Nbblist → ℕ
next_idx c =
    if (head c.idx + c.len) % 2 ^ 64 == tail c.idx
    then ((c.idx + c.stride) % 2 ^ 64 + c.stride * 2 ^ 32 % 2 ^ 64) % 2 ^ 64
    else (c.idx + c.stride) % 2 ^ 64

unfoldable pub write_clist : Nbblist → List ℕ → Option Nbblist
write_clist c bucket =
    if ltb 0 c.len
      && (leb c.stride (length bucket) && leb (entry c (tail c.idx) + c.stride) (length c.buf))
    then some (record c {
      buf = overwrite c.buf (entry c (tail c.idx)) (take c.stride bucket);
      idx = next_idx c;
    })
    else none

-- What a read does while nothing writes: it stays in its inner loop, it has no defined behaviour, or
-- it leaves the list, the bucket and a number of bytes.
pub data ReadOutcome : Type 0 where
  spinning : ReadOutcome
  undefined : ReadOutcome
  done : Nbblist → List ℕ → ℕ → ReadOutcome

-- The copy goes over the parameter `bucket`, which has 8 bytes, and not to where it points: what it
-- points to stays as it was.
unfoldable pub read_clist : Nbblist → List ℕ → ReadOutcome
read_clist c bucket =
    if ltb ((head c.idx + c.len) % 2 ^ 64) (tail c.idx)
    then spinning
    else if head c.idx == tail c.idx
    then done c bucket 0
    else if ltb 0 c.len && (leb c.stride 8 && leb (entry c (head c.idx) + c.stride) (length c.buf))
    then done (record c { idx = (c.idx + c.stride * 2 ^ 32 % 2 ^ 64) % 2 ^ 64 }) bucket
        (c.stride % 2 ^ 32)
    else undefined
