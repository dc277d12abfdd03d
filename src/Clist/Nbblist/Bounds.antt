-- ===== src/Clist/Nbblist/Bounds.antt =====
-- Where write_clist of client/clist/nbboundedlist.c writes, and what it does to the packed word.
use pmu_min_suite.Prelude.{
  ℕ, zero, suc, ◌+◌, ◌*◌, ◌%◌, ◌^◌, ◌≤◌, ◌<◌, ◌≡◌, some, List, arith, sym, ◌∙◌,
}
use native.Mathlib.Nat.{mod-lt, mod-eq_of_lt}
use pmu_min_suite.Prelude.Bits.{bit_and_mask}
use pmu_min_suite.Prelude.Lists.{
  length, take, drop, overwrite, length-take, length-overwrite, take-drop-overwrite,
}
use pmu_min_suite.Clist.Nbblist.{Nbblist, tail, entry, next_idx, write_clist}

-- The buffer has room for `len` entries, at least one, and its size is a number of 64 bits.
unfoldable pub IsNbblist : Nbblist → Type 0
IsNbblist c = (length c.buf ≡ c.len * c.stride) × (1 ≤ c.len) × (c.len * c.stride < 2 ^ 64)

pub tail_lem : (w : ℕ) → tail w ≡ w % 2 ^ 32
unfolding tail
tail_lem w = bit_and_mask 32 w

mul-room : (n s r : ℕ) → r < n → s * r + s ≤ n * s
mul-room zero s r h = absurd (omega arith)
mul-room (suc n) s zero h = omega arith
mul-room (suc n) s (suc r) h = ground (arith, mul-room n s r)

mod-room : (n s t : ℕ) → 1 ≤ n → s * (t % n) + s ≤ n * s
mod-room n s t h = mul-room n s (t % n) (mod-lt t h)

entry-room :
    (c : Nbblist) (n : ℕ) → IsNbblist c → 1 ≤ c.stride → entry c n + c.stride ≤ length c.buf
unfolding IsNbblist
entry-room c n h hs =
    ground
      (arith, h, mod-room c.len c.stride n, mod-eq_of_lt {n = c.stride * (n % c.len)} {m = 2 ^ 64})

written : (c : Nbblist) (bucket : List ℕ) → Nbblist
written c bucket = record c {
  buf = overwrite c.buf (entry c (tail c.idx)) (take c.stride bucket);
  idx = next_idx c;
}

write_clist-written :
    (c : Nbblist) (bucket : List ℕ)
    → IsNbblist c
    → 1 ≤ c.stride
    → c.stride ≤ length bucket
    → write_clist c bucket ≡ some (written c bucket)
unfolding write_clist written IsNbblist
write_clist-written c bucket h hs hb = ground (arith, h, entry-room c (tail c.idx) h hs)

entry_lem : (c : Nbblist) (n : ℕ) → IsNbblist c → 1 ≤ c.stride → entry c n ≡ c.stride * (n % c.len)
unfolding IsNbblist
entry_lem c n h hs =
    ground
      (arith, h, mod-room c.len c.stride n, mod-eq_of_lt {n = c.stride * (n % c.len)} {m = 2 ^ 64})

take-written :
    (c : Nbblist) (bucket : List ℕ)
    → IsNbblist c
    → 1 ≤ c.stride
    → c.stride ≤ length bucket
    → take c.stride (drop (c.stride * (c.idx % 2 ^ 32 % c.len)) (written c bucket).buf)
      ≡ take c.stride bucket
unfolding written
take-written c bucket h hs hb =
    rw (sym (tail_lem c.idx), sym (entry_lem c (tail c.idx) h hs))
      (ground (
        arith,
        take-drop-overwrite c.buf (entry c (tail c.idx)) (take c.stride bucket),
        length-take c.stride bucket hb,
        entry-room c (tail c.idx) h hs,
      ))

-- Whatever the packed word holds, a write of a bucket of at least `stride` bytes is within the
-- buffer and keeps the list well formed, the written slot then holds the bytes of the bucket, and
-- this slot is the one of the low half of the word modulo the number of entries.
pub write_clist-IsNbblist :
    (c : Nbblist) (bucket : List ℕ)
    → IsNbblist c
    → 1 ≤ c.stride
    → c.stride ≤ length bucket
    → (c' : Nbblist) × (write_clist c bucket ≡ some c')
      × IsNbblist c'
      × (take c.stride (drop (c.stride * (c.idx % 2 ^ 32 % c.len)) c'.buf) ≡ take c.stride bucket)
unfolding written IsNbblist
write_clist-IsNbblist c bucket h hs hb = (
  written c bucket,
  write_clist-written c bucket h hs hb,
  (length-overwrite c.buf (entry c (tail c.idx)) (take c.stride bucket) ∙ h.0, h.1, h.2),
  take-written c bucket h hs hb,
)
