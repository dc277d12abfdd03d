-- ===== src/Tools/Mreader/Pages.antt =====
-- The sum of tools/mreader.c over the area of breader/breader_mmap.c.
use pmu_min_suite.Prelude.{
  ℕ, zero, suc, ◌+◌, ◌*◌, ◌/◌, ◌%◌, ◌^◌, ◌≡◌, ◌≢◌, refl, some, true, false, arith, ap,
}
use native.Mathlib.Decide.{ℕ_discrete}
use pmu_min_suite.Breader.{Words}
use pmu_min_suite.Breader.Mmap.{mapped}
use pmu_min_suite.Tools.{printed}
use pmu_min_suite.Tools.Mmapr.{MapApi, is_negative}
use pmu_min_suite.Tools.Mreader.{mmap_size, add_words, mreader}

-- The sum of the first `n` words.
unfoldable pub sum_of : Words → ℕ → ℕ
sum_of words zero = 0
sum_of words (suc n) = sum_of words n + words n

-- The sum of `n` words that repeat the first page.
repeated : Words → ℕ → ℕ
repeated words n = n / 512 * sum_of words 512 + sum_of words (n % 512)

sum_of-zero : (words : Words) → sum_of words 0 ≡ 0
unfolding sum_of
sum_of-zero words = refl

sum_of-suc : (words : Words) (n : ℕ) → sum_of words (suc n) ≡ sum_of words n + words n
unfolding sum_of
sum_of-suc words n = refl

next_in_page : (n : ℕ) → n % 512 ≢ 511 → (suc n / 512 ≡ n / 512) × (suc n % 512 ≡ suc (n % 512))
next_in_page n h = omega arith

next_page : (n : ℕ) → n % 512 ≡ 511 → (suc n / 512 ≡ suc (n / 512)) × (suc n % 512 ≡ 0)
next_page n h = omega arith

repeated-suc : (words : Words) (n : ℕ) → repeated words (suc n) ≡ repeated words n + words (n % 512)
unfolding repeated
repeated-suc words n = elim (ℕ_discrete (n % 512) 511) [
  | yes e ↦
      rw ((next_page n e).0, (next_page n e).1, e)
        (omega (arith, sum_of-zero words, sum_of-suc words 511))
  | no ne ↦
      rw ((next_in_page n ne).0, (next_in_page n ne).1) (omega (arith, sum_of-suc words (n % 512)))
]

add_words-mapped :
    (words : Words) (n : ℕ) → add_words (mapped (some words)) n ≡ some (repeated words n % 2 ^ 64)
unfolding add_words repeated
add_words-mapped words zero = ap some (omega (arith, repeated_zero))
  where
    repeated_zero : repeated words 0 ≡ 0
    repeated_zero = omega (arith, sum_of-zero words)
add_words-mapped words (suc n) =
    rw (add_words-mapped words n, add_words) (ap some (omega (arith, repeated-suc words n)))

-- The program prints, modulo 2 ^ 64, the sum of the first 512 words of the buffer 1024 times: of the
-- other pages of the buffer it sees nothing.
pub mreader-mapped :
    (api : MapApi) (words : Words)
    → is_negative api.fd ≡ false
    → api.mmap ≡ true
    → api.munmap ≡ true
    → mreader api (mapped (some words)) ≡ printed (1024 * sum_of words 512 % 2 ^ 64)
unfolding mreader repeated
mreader-mapped api words hf hm hu =
    ground (arith, add_words-mapped words (mmap_size / 8), sum_of-zero words)
