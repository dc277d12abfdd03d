-- ===== src/Tools/Mreader.antt =====
-- tools/mreader.c: the sum of the words of the mapped buffer. `buff` gives the words of the area;
-- `none` is a word whose page the kernel does not give.
pub mod Pages
use pmu_min_suite.Prelude.{
  ℕ, zero, suc, ◌*◌, ◌/◌, ◌^◌, ◌%◌, Option, none, some, if◌then◌else◌, not, ℤ, pos, negsuc,
  page_size,
}
use pmu_min_suite.Breader.{data_buffer_order}
use pmu_min_suite.Tools.{Outcome, undefined, returned, printed, add_64}
use pmu_min_suite.Tools.Mmapr.{MapApi, is_negative}

abbrev pub mmap_size : ℕ
mmap_size = page_size * 2 ^ data_buffer_order

-- The loop over the first `n` words.
unfoldable pub add_words : (ℕ → Option ℕ) → ℕ → Option ℕ
add_words buff zero = some 0
add_words buff (suc n) = elim (add_words buff n) [
  | none ↦ none
  | some sum ↦ elim (buff n) [ none ↦ none | some word ↦ some (add_64 sum word) ]
]

unfoldable pub mreader : MapApi → (ℕ → Option ℕ) → Outcome
mreader api buff =
    if is_negative api.fd
    then returned api.fd
    else if not api.mmap
    then returned (negsuc 0)
    else elim (add_words buff (mmap_size / 8)) [
      | none ↦ undefined
      | some sum ↦ if not api.munmap then returned (negsuc 0) else printed sum
    ]
