-- ===== src/Clist/Instances.antt =====
-- The lists of client/clist/carray.c and client/clist/nbboundedlist.c as instances of the interface
-- of client/clist/clist.h.
use pmu_min_suite.Prelude.{
  ℕ, ◌+◌, ◌*◌, ◌%◌, ◌^◌, ◌≤◌, ◌<◌, ◌≡◌, refl, Option, none, some, List, inl, arith, sym, ap,
  elim-eq-some,
}
use pmu_min_suite.Prelude.Lists.{length, drop, length-drop}
use pmu_min_suite.Clist.Contract.{Clist, GivesSize, ReadsAll}
use pmu_min_suite.Clist.Carray
use pmu_min_suite.Clist.Carray.{Carray, header_size, alloc_size}
use pmu_min_suite.Clist.Carray.Bounds.{IsCarray, write_clist-IsCarray}
use pmu_min_suite.Clist.Nbblist
use pmu_min_suite.Clist.Nbblist.{Nbblist}
use pmu_min_suite.Clist.Nbblist.Bounds.{IsNbblist, write_clist-IsNbblist}

-- What follows a header of 24 bytes in a block of the size that init_clist asks for.
buffer_length :
    (block : List ℕ) (n : ℕ)
    → n < 2 ^ 31
    → length block ≡ (24 + n % 2 ^ 64) % 2 ^ 64
    → length (drop 24 block) ≡ n
buffer_length block n h e = omega (arith, length-drop 24 block)

from_block : ℕ → ℕ → List ℕ → Carray
from_block entry_count entry_size block = record {
  len = entry_count;
  stride = entry_size;
  idx = 0;
  buf = drop header_size block;
}

pub init-IsCarray :
    (kvmalloc : ℕ → Option (List ℕ)) (entry_count entry_size : ℕ) (c : Carray)
    → GivesSize kvmalloc
    → 1 ≤ entry_count
    → 1 ≤ entry_size
    → entry_count * entry_size < 2 ^ 31
    → Carray.init_clist kvmalloc entry_count entry_size ≡ some c
    → IsCarray c × (c.stride ≤ entry_size)
unfolding Carray.init_clist IsCarray from_block
init-IsCarray kvmalloc entry_count entry_size c hk hc hs hm e =
    let (block, eb, ec) =
      elim-eq-some (from_block entry_count entry_size)
        (kvmalloc (alloc_size entry_count entry_size)) e in
    rw (sym ec) (
      (buffer_length block (entry_count * entry_size) hm (hk _ block eb), hc, hs, hm, inl refl),
      omega arith,
    )

list_from_block : ℕ → ℕ → List ℕ → Nbblist
list_from_block entry_count entry_size block = record {
  stride = entry_size;
  len = entry_count;
  idx = 0;
  buf = drop 24 block;
}

pub init-IsNbblist :
    (kvmalloc : ℕ → Option (List ℕ)) (entry_count entry_size : ℕ) (c : Nbblist)
    → GivesSize kvmalloc
    → 1 ≤ entry_count
    → 1 ≤ entry_size
    → entry_count * entry_size < 2 ^ 31
    → Nbblist.init_clist kvmalloc entry_count entry_size ≡ some c
    → (IsNbblist c × (1 ≤ c.stride)) × (c.stride ≤ entry_size)
unfolding Nbblist.init_clist IsNbblist list_from_block
init-IsNbblist kvmalloc entry_count entry_size c hk hc hs hm e =
    let (block, eb, ec) =
      elim-eq-some (list_from_block entry_count entry_size)
        (kvmalloc ((24 + entry_count * entry_size % 2 ^ 64) % 2 ^ 64)) e in
    rw (sym ec) (
      ((buffer_length block (entry_count * entry_size) hm (hk _ block eb), hc, omega arith), hs),
      omega arith,
    )

stride-write_clist :
    (c c' : Carray) (bucket : List ℕ) → Carray.write_clist c bucket ≡ some c' → c'.stride ≡ c.stride
unfolding Carray.write_clist
stride-write_clist c c' bucket e = ground arith

list_stride-write_clist :
    (c c' : Nbblist) (bucket : List ℕ)
    → Nbblist.write_clist c bucket ≡ some c'
    → c'.stride ≡ c.stride
unfolding Nbblist.write_clist
list_stride-write_clist c c' bucket e = ground arith

pub write-Carray :
    (c : Carray) (bucket : List ℕ)
    → IsCarray c
    → c.stride ≤ length bucket
    → (c' : Carray) × (Carray.write_clist c bucket ≡ some c') × IsCarray c' × (c'.stride ≡ c.stride)
write-Carray c bucket h hb =
    let (c', e, ok, bytes) = write_clist-IsCarray c bucket h hb in
    (c', e, ok, stride-write_clist c c' bucket e)

pub write-Nbblist :
    (c : Nbblist) (bucket : List ℕ)
    → IsNbblist c × (1 ≤ c.stride)
    → c.stride ≤ length bucket
    → (c' : Nbblist) × (Nbblist.write_clist c bucket ≡ some c')
      × (IsNbblist c' × (1 ≤ c'.stride))
      × (c'.stride ≡ c.stride)
write-Nbblist c bucket h hb =
    let (c', e, ok, bytes) = write_clist-IsNbblist c bucket h.0 h.1 hb in
    let same = list_stride-write_clist c c' bucket e in (c', e, (ok, omega arith), same)

abbrev pub carray_clist : Clist
carray_clist = record {
  State = Carray;
  init_clist = Carray.init_clist;
  write_clist = Carray.write_clist;
  reads = λ c. c.stride;
  IsOk = IsCarray;
  init-IsOk = init-IsCarray;
  write-IsOk = write-Carray;
}

abbrev pub nbblist_clist : Clist
nbblist_clist = record {
  State = Nbblist;
  init_clist = Nbblist.init_clist;
  write_clist = Nbblist.write_clist;
  reads = λ c. c.stride;
  IsOk = λ c. IsNbblist c × (1 ≤ c.stride);
  init-IsOk = init-IsNbblist;
  write-IsOk = write-Nbblist;
}

pub init-stride :
    (kvmalloc : ℕ → Option (List ℕ)) (entry_count entry_size : ℕ) (c : Carray)
    → Carray.init_clist kvmalloc entry_count entry_size ≡ some c
    → c.stride ≡ entry_size
unfolding Carray.init_clist from_block
init-stride kvmalloc entry_count entry_size c e =
    let (block, eb, ec) =
      elim-eq-some (from_block entry_count entry_size)
        (kvmalloc (alloc_size entry_count entry_size)) e in
    ap (λ (r : Carray). r.stride) (sym ec)

pub write-short :
    (c : Carray) (bucket : List ℕ) → length bucket < c.stride → Carray.write_clist c bucket ≡ none
unfolding Carray.write_clist
write-short c bucket h = ground arith

pub carray-ReadsAll : ReadsAll carray_clist
carray-ReadsAll = record { init-reads = init-stride; write-short = write-short }
