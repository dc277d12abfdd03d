-- ===== src/Clist/Carray/Bounds.antt =====
-- Where write_clist of client/clist/carray.c writes.
use pmu_min_suite.Prelude.{
  size_of_int, ℕ, ◌+◌, ◌*◌, ◌^◌, ◌≤◌, ◌<◌, ◌≡◌, refl, Option, none, some, ◌⊎◌, inl, inr, List,
  arith, zero, suc, ◌∙◌, [], ◌∷◌,
}
use pmu_min_suite.Prelude.Lists.{
  length, take, drop, overwrite, length-take, length-overwrite, take-drop-overwrite, drop-overwrite,
}
use pmu_min_suite.Clist.Carray.{Carray, next_idx, write_clist}

-- The buffer has room for `len` entries and an offset in it fits in an `int`; `idx` is 0 or is not
-- further than one write above `len - 1`.
unfoldable pub IsCarray : Carray → Type 0
IsCarray c =
    (length c.buf ≡ c.len * c.stride)
    × (1 ≤ c.len)
    × (1 ≤ c.stride)
    × (c.len * c.stride < 2 ^ 31)
    × ((c.idx ≡ 0) ⊎ ((2 ≤ c.len) × (c.idx + 2 ≤ c.len + c.stride)))

-- The furthest end of an entry is within the buffer.
entry_end-le : (n s : ℕ) → 2 ≤ n → 1 ≤ s → n + s + s ≤ n * s + 2
entry_end-le zero s h k = absurd (omega arith)
entry_end-le (suc zero) s h k = absurd (omega arith)
entry_end-le (suc (suc n)) zero h k = absurd (omega arith)
entry_end-le (suc (suc n)) (suc s) h k = omega arith

le-mul : (n s : ℕ) → 1 ≤ n → s ≤ n * s
le-mul zero s h = absurd (omega arith)
le-mul (suc n) s h = omega arith

le-mul' : (n s : ℕ) → 1 ≤ s → n ≤ n * s
le-mul' n zero h = absurd (omega arith)
le-mul' n (suc s) h = omega arith

idx-room : (c : Carray) → IsCarray c → c.idx + c.stride ≤ c.len * c.stride
unfolding IsCarray
idx-room c (hb, hl, hs, hm, inl e) = ground (arith, le-mul c.len c.stride hl)
idx-room c (hb, hl, hs, hm, inr (h2, hi)) = ground (arith, entry_end-le c.len c.stride h2 hs)

idx-size : (c : Carray) → IsCarray c → size_of_int c.idx ≡ c.idx
unfolding IsCarray
idx-size c h = ground (arith, idx-room c h, h)

next_idx-ok :
    (c : Carray)
    → IsCarray c
    → (next_idx c ≡ 0) ⊎ ((2 ≤ c.len) × (next_idx c + 2 ≤ c.len + c.stride))
unfolding IsCarray
next_idx-ok c h =
    ground (arith, h, idx-size c h, idx-room c h, le-mul' c.len c.stride, le-mul c.len c.stride)

written : (c : Carray) (bucket : List ℕ) → Carray
written c bucket = record c { buf = overwrite c.buf c.idx (take c.stride bucket); idx = next_idx c }

write_clist-written :
    (c : Carray) (bucket : List ℕ)
    → IsCarray c
    → c.stride ≤ length bucket
    → write_clist c bucket ≡ some (written c bucket)
unfolding write_clist written IsCarray
write_clist-written c bucket h hb = ground (arith, idx-size c h, idx-room c h, h)

written-ok : (c : Carray) (bucket : List ℕ) → IsCarray c → IsCarray (written c bucket)
unfolding written IsCarray
written-ok c bucket h =
    (length-overwrite c.buf c.idx (take c.stride bucket) ∙ h.0, h.1, h.2, h.3, next_idx-ok c h)

take-written :
    (c : Carray) (bucket : List ℕ)
    → IsCarray c
    → c.stride ≤ length bucket
    → take c.stride (drop c.idx (written c bucket).buf) ≡ take c.stride bucket
unfolding written IsCarray
take-written c bucket h hb = ground (
  arith,
  take-drop-overwrite c.buf c.idx (take c.stride bucket),
  length-take c.stride bucket hb,
  idx-room c h,
  h,
)

-- A write of a bucket of at least `stride` bytes to a well-formed array is within the buffer and
-- keeps the array well formed, and the bytes at the old `idx` are then those of the bucket.
pub write_clist-IsCarray :
    (c : Carray) (bucket : List ℕ)
    → IsCarray c
    → c.stride ≤ length bucket
    → (c' : Carray) × (write_clist c bucket ≡ some c')
      × IsCarray c'
      × (take c.stride (drop c.idx c'.buf) ≡ take c.stride bucket)
write_clist-IsCarray c bucket h hb = (
  written c bucket,
  write_clist-written c bucket h hb,
  written-ok c bucket h,
  take-written c bucket h hb,
)

unfoldable pub write_all : Carray → List (List ℕ) → Option Carray
write_all c [] = some c
write_all c (b ∷ bs) = elim (write_clist c b) [ none ↦ none | some c' ↦ write_all c' bs ]

abbrev pub AllRoom : ℕ → List (List ℕ) → Type 0
AllRoom n [] = Unit
AllRoom n (b ∷ bs) = (n ≤ length b) × AllRoom n bs

drop-written :
    (c : Carray) (bucket : List ℕ) (n : ℕ)
    → IsCarray c
    → c.stride ≤ length bucket
    → c.len + c.stride + c.stride ≤ n + 2
    → 2 ≤ c.len
    → drop n (written c bucket).buf ≡ drop n c.buf
unfolding written IsCarray
drop-written c bucket n h hb hn h2 =
    ground (
      arith,
      drop-overwrite c.buf c.idx (take c.stride bucket) n,
      length-take c.stride bucket hb,
      h,
    )

write_all-written :
    (c : Carray) (b : List ℕ) (bs : List (List ℕ))
    → IsCarray c
    → c.stride ≤ length b
    → write_all c (b ∷ bs) ≡ write_all (written c b) bs
unfolding write_all
write_all-written c b bs h hb = rw (write_clist-written c b h hb, write_all) refl

-- However many entries are written to a well-formed array of at least two entries, every write is
-- within the buffer and no byte at or after `len + 2 * stride - 2` changes: the offset `idx` counts
-- bytes and is compared with the number of entries.
pub drop-write_all :
    (c : Carray) (bs : List (List ℕ)) (n : ℕ)
    → IsCarray c
    → 2 ≤ c.len
    → AllRoom c.stride bs
    → c.len + c.stride + c.stride ≤ n + 2
    → (c' : Carray) × (write_all c bs ≡ some c') × (drop n c'.buf ≡ drop n c.buf)
unfolding write_all written
drop-write_all c [] n h h2 hb hn = (c, refl, refl)
drop-write_all c (b ∷ bs) n h h2 hb hn =
    let (c', e, e') = drop-write_all (written c b) bs n (written-ok c b h) h2 hb.1 hn in
    (c', write_all-written c b bs h hb.0 ∙ e, e' ∙ drop-written c b n h hb.0 hn h2)
