-- ===== src/Tools/Tests.antt =====
-- The programs of tools/ on concrete inputs.
use pmu_min_suite.Prelude.{
  ℕ, zero, ◌+◌, ◌-◌, ◌*◌, ◌%◌, ◌^◌, ◌≡◌, ◌≢◌, refl, Bool, true, false, some, ℤ, pos, List, [], ◌∷◌,
  arith,
}
use pmu_min_suite.Breader.Mmap.{mapped}
use pmu_min_suite.Tools.{spinning, printed}
use pmu_min_suite.Tools.Mmapr.{MapApi}
use pmu_min_suite.Tools.Mmapr
use pmu_min_suite.Tools.Stdio
use pmu_min_suite.Tools.Stdio.{StdioApi, stdio_reader}
use pmu_min_suite.Tools.Reader.{Parsed, refused, raw_reader, main, reader}
use pmu_min_suite.Tools.Reader.Arguments.{reader_spins}
use pmu_min_suite.Tools.Mreader.{mreader}
use pmu_min_suite.Tools.Mreader.Pages.{sum_of, mreader-mapped}

abbrev map_api : MapApi
map_api = record { fd = pos 3; mmap = true; munmap = true }

-- In an area of 5 bytes with stride 2: bytes 0 and 1 in each of three rounds.
mmap_reader_five : Mmapr.mmap_reader map_api (λ i. i + 10) 5 9 (pos 2) 1 ≡ printed 63
unfolding Mmapr.mmap_reader Mmapr.passes Mmapr.pass Mmapr.add_first Mmapr.add_rest
mmap_reader_five = refl

-- A text of one digit, or none, which is read as 0.
abbrev strtol : List ℕ → Parsed
strtol [] = record { value = pos 0; consumed = 0; erange = false }
strtol (x ∷ xs) = record { value = pos (x - 48); consumed = 1; erange = false }

-- The end of the file at the second call; calls for no bytes read nothing.
abbrev fread : ℤ → ℕ → List ℕ × Bool
fread (pos zero) call = ([], false)
fread stride zero = (1 ∷ 255 ∷ [], false)
fread stride call = (7 ∷ [], true)

abbrev stdio : StdioApi
stdio = record { malloc = λ size. true; fopen = true; fread = fread }

-- 1 - 1 + 7, twice.
stdio_reader_twice : stdio_reader stdio (pos 8) 3 2 ≡ printed 14
unfolding stdio_reader Stdio.read_passes Stdio.read_pass
stdio_reader_twice = refl

main_raw : main strtol ((49 ∷ []) ∷ (52 ∷ []) ∷ (56 ∷ []) ∷ []) ≡ raw_reader (pos 8) (pos 4)
unfolding main
main_raw = refl

main_odd_stride : main strtol ((49 ∷ []) ∷ (52 ∷ []) ∷ (57 ∷ []) ∷ []) ≡ refused
unfolding main
main_odd_stride = refl

not_refused : main strtol ((49 ∷ []) ∷ (52 ∷ []) ∷ ([] ∷ [])) ≢ refused
unfolding main
not_refused e = cc

reader_spins_example :
    reader strtol stdio map_api (λ i. i) 4096 5000 ((49 ∷ []) ∷ (52 ∷ []) ∷ ([] ∷ [])) ≡ spinning
reader_spins_example =
    reader_spins strtol stdio map_api (λ i. i) 4096 5000 (49 ∷ []) (52 ∷ []) [] refl not_refused
      (λ call. refl) (refl, refl, refl, refl) (omega arith)

mreader-mapped_example :
    mreader map_api (mapped (some (λ i. i))) ≡ printed (1024 * sum_of (λ i. i) 512 % 2 ^ 64)
mreader-mapped_example = mreader-mapped map_api (λ i. i) refl refl refl
