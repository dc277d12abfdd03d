-- ===== src/Tools/Stdio.antt =====
-- tools/rawr.c and tools/seqr.c: reading a file by the calls of stdio. The two differ in the name of
-- the file.
use pmu_min_suite.Prelude.{
  ℕ, zero, suc, ◌+◌, Bool, true, false, if◌then◌else◌, not, ℤ, negsuc, List, [], ◌∷◌,
}
use pmu_min_suite.Tools.{Outcome, spinning, undefined, returned, printed, char_value, add_64}

-- `fread` gives, for the stride and the number of the call since the start of the file, the bytes
-- that were read and whether the end of the file is marked after the call.
pub record StdioApi : Type 0 where
  pub malloc : ℤ → Bool
  pub fopen : Bool
  pub fread : ℤ → ℕ → List ℕ × Bool

abbrev pub add_all : List ℕ → ℕ → ℕ
add_all [] sum = sum
add_all (b ∷ bs) sum = add_all bs (add_64 sum (char_value b))

module _ (api : StdioApi) (stride : ℤ) where
  -- `while (!feof(file))` from a call on; the sum, or none yet.
  unfoldable pub read_pass : ℕ → ℕ → ℕ → Outcome
  read_pass zero call sum = spinning
  read_pass (suc fuel) call sum = elim (api.fread stride call).1 [
    | true ↦ printed (add_all (api.fread stride call).0 sum)
    | false ↦ read_pass fuel (call + 1) (add_all (api.fread stride call).0 sum)
  ]

  -- `while (times--)`: `rewind` starts at the first call again.
  unfoldable pub read_passes : ℕ → ℕ → ℕ → Outcome
  read_passes fuel zero sum = printed sum
  read_passes fuel (suc times) sum = elim (read_pass fuel 0 sum) [
    | printed sum' ↦ read_passes fuel times sum'
    | spinning ↦ spinning
    | undefined ↦ undefined
    | returned err ↦ returned err
  ]

  -- `file < 0` does not hold of NULL, with which `feof` has no defined behaviour.
  unfoldable pub stdio_reader : ℕ → ℕ → Outcome
  stdio_reader fuel times =
      if not (api.malloc stride)
      then returned (negsuc 0)
      else if not api.fopen
      then undefined
      else read_passes fuel times 0

  -- The reader of /proc/breader_raw, and that of /proc/breader_seq.
  abbrev pub raw_reader : ℕ → ℕ → Outcome
  raw_reader fuel times = stdio_reader fuel times

  abbrev pub seq_reader : ℕ → ℕ → Outcome
  seq_reader fuel times = stdio_reader fuel times
