-- ===== src/Clist/Tests.antt =====
-- The circular lists on concrete inputs.
use pmu_min_suite.Prelude.{ℕ, ◌≡◌, refl, Option, none, some, List, [], ◌∷◌, inl, arith}
use pmu_min_suite.Prelude.Lists.{take, drop, replicate}
use pmu_min_suite.Clist.Carray
use pmu_min_suite.Clist.Carray.{Carray}
use pmu_min_suite.Clist.Carray.Bounds.{IsCarray, write_clist-IsCarray, write_all, drop-write_all}
use pmu_min_suite.Clist.Nbblist
use pmu_min_suite.Clist.Nbblist.{Nbblist}
use pmu_min_suite.Clist.Nbblist.Bounds.{IsNbblist, write_clist-IsNbblist}

-- Memory that holds 7 in each byte.
abbrev kvmalloc : ℕ → Option (List ℕ)
kvmalloc size = some (replicate size 7)

abbrev carray : Carray
carray = record { len = 4; stride = 2; idx = 0; buf = replicate 8 7 }

init_clist-carray : Carray.init_clist kvmalloc 4 2 ≡ some carray
unfolding Carray.init_clist
init_clist-carray = refl

init_clist_fails : Carray.init_clist (λ size. none) 4 2 ≡ none
unfolding Carray.init_clist
init_clist_fails = refl

read_clist-carray : Carray.read_clist carray (1 ∷ []) ≡ (0, 1 ∷ [])
unfolding Carray.read_clist
read_clist-carray = refl

write_all-carray :
    write_all carray ((1 ∷ 2 ∷ []) ∷ (3 ∷ 4 ∷ []) ∷ (5 ∷ 6 ∷ []) ∷ (8 ∷ 9 ∷ []) ∷ [])
    ≡ some (record carray { idx = 2; buf = 8 ∷ 9 ∷ 3 ∷ 4 ∷ 5 ∷ 6 ∷ 7 ∷ 7 ∷ [] })
unfolding write_all Carray.write_clist
write_all-carray = refl

carray-IsCarray : IsCarray carray
unfolding IsCarray
carray-IsCarray = (refl, omega arith, omega arith, omega arith, inl refl)

write_clist-IsCarray_example :
    (c' : Carray) × (Carray.write_clist carray (1 ∷ 2 ∷ []) ≡ some c')
    × IsCarray c'
    × (take 2 (drop 0 c'.buf) ≡ 1 ∷ 2 ∷ [])
write_clist-IsCarray_example =
    write_clist-IsCarray carray (1 ∷ 2 ∷ []) carray-IsCarray (omega arith)

drop-write_all_example :
    (c' : Carray) × (write_all carray ((1 ∷ 2 ∷ []) ∷ (3 ∷ 4 ∷ []) ∷ []) ≡ some c')
    × (drop 6 c'.buf ≡ 7 ∷ 7 ∷ [])
drop-write_all_example =
    drop-write_all carray ((1 ∷ 2 ∷ []) ∷ (3 ∷ 4 ∷ []) ∷ []) 6 carray-IsCarray (omega arith)
      (omega arith, (omega arith, tt)) (omega arith)

-- The head is 1 and the tail 5.
abbrev nbblist : Nbblist
nbblist = record { stride = 2; len = 4; idx = 4294967301; buf = replicate 8 7 }

init_clist-nbblist : Nbblist.init_clist kvmalloc 4 2 ≡ some (record nbblist { idx = 0 })
unfolding Nbblist.init_clist
init_clist-nbblist = refl

-- The list counts as full, and the head moves as well.
write_clist-nbblist :
    Nbblist.write_clist nbblist (1 ∷ 2 ∷ [])
    ≡ some (record nbblist { idx = 12884901895; buf = 7 ∷ 7 ∷ 1 ∷ 2 ∷ 7 ∷ 7 ∷ 7 ∷ 7 ∷ [] })
unfolding Nbblist.write_clist Nbblist.next_idx Nbblist.head Nbblist.tail
write_clist-nbblist = refl

nbblist-IsNbblist : IsNbblist nbblist
unfolding IsNbblist
nbblist-IsNbblist = (refl, omega arith, omega arith)

write_clist-IsNbblist_example :
    (c' : Nbblist) × (Nbblist.write_clist nbblist (1 ∷ 2 ∷ []) ≡ some c')
    × IsNbblist c'
    × (take 2 (drop 2 c'.buf) ≡ 1 ∷ 2 ∷ [])
write_clist-IsNbblist_example =
    write_clist-IsNbblist nbblist (1 ∷ 2 ∷ []) nbblist-IsNbblist (omega arith) (omega arith)

-- Three entries of four bytes: after one write a read never ends. With entries of two bytes it takes
-- the entry and leaves the bucket as it was.
abbrev words_of : ℕ → ℕ → Nbblist
words_of size idx = record { stride = size; len = 3; idx = idx; buf = replicate 12 5 }

read_clist_spins : Nbblist.read_clist (words_of 4 4) (9 ∷ []) ≡ Nbblist.spinning
unfolding Nbblist.read_clist Nbblist.head Nbblist.tail
read_clist_spins = refl

read_clist_two :
    Nbblist.read_clist (words_of 2 2) (9 ∷ []) ≡ Nbblist.done (words_of 2 0x200000002) (9 ∷ []) 2
unfolding Nbblist.read_clist Nbblist.head Nbblist.tail
read_clist_two = refl
