-- ===== src/Tools/Reader.antt =====
-- tools/reader.c: the arguments of the program that calls the readers. A text is the list of its
-- bytes, and `strtol` an argument.
pub mod Arguments
use pmu_min_suite.Prelude.{
  ℕ, zero, suc, ◌+◌, ◌-◌, ◌%◌, ◌^◌, Bool, true, false, Option, none, some, ◌==◌, ◌||◌,
  if◌then◌else◌, ltb, not, ℤ, pos, negsuc, List, [], ◌∷◌,
}
use pmu_min_suite.Prelude.Lists.{length}
use pmu_min_suite.Tools.{Outcome, returned}
use pmu_min_suite.Tools.Mmapr
use pmu_min_suite.Tools.Mmapr.{MapApi}
use pmu_min_suite.Tools.Stdio
use pmu_min_suite.Tools.Stdio.{StdioApi}

-- The value, how many bytes stand before `endptr`, and whether `errno` is ERANGE.
pub record Parsed : Type 0 where
  pub value : ℤ
  pub consumed : ℕ
  pub erange : Bool

-- From `long` to `int`.
abbrev pub to_int : ℤ → ℤ
to_int (pos n) =
    if ltb (n % 2 ^ 32) (2 ^ 31) then pos (n % 2 ^ 32) else negsuc (2 ^ 32 - 1 - n % 2 ^ 32)
to_int (negsuc n) =
    if ltb (n % 2 ^ 32) (2 ^ 31) then negsuc (n % 2 ^ 32) else pos (2 ^ 32 - 1 - n % 2 ^ 32)

-- `x & 0x7`
abbrev pub low_bits : ℤ → ℕ
low_bits (pos n) = n % 8
low_bits (negsuc n) = 7 - n % 8

abbrev pub bad_mode : ℤ → Bool
bad_mode (pos n) = ltb 2 n
bad_mode (negsuc n) = true

abbrev pub below_one : ℤ → Bool
below_one (pos n) = n == 0
below_one (negsuc n) = true

-- What `main` does after its checks.
pub data Call : Type 0 where
  refused : Call
  seq_reader : ℤ → ℤ → Call
  raw_reader : ℤ → ℤ → Call
  mmap_reader : ℤ → ℤ → Call

abbrev pub call_of : ℤ → ℤ → ℤ → Call
call_of (pos zero) stride times = seq_reader stride times
call_of (pos (suc zero)) stride times = raw_reader stride times
call_of (pos (suc (suc zero))) stride times = mmap_reader stride times
call_of _ stride times = refused

module _ (strtol : List ℕ → Parsed) where
  -- The test that follows each call of `strtol`. `argv[1] == endptr` can hold for the first only.
  abbrev pub bad_text : Bool → List ℕ → Bool
  bad_text first arg =
      (strtol arg).erange
      || (not ((strtol arg).consumed == length arg)
          || (if first then (strtol arg).consumed == 0 else false))

  -- The arguments behind the name of the program.
  unfoldable pub main : List (List ℕ) → Call
  main (mode ∷ (times ∷ (stride ∷ []))) =
      if bad_text true mode
      then refused
      else if bad_mode (to_int (strtol mode).value)
      then refused
      else if bad_text false times
      then refused
      else if below_one (to_int (strtol times).value)
      then refused
      else if bad_text false stride
      then refused
      else if not (low_bits (to_int (strtol stride).value) == 0)
      then refused
      else call_of (to_int (strtol mode).value) (to_int (strtol stride).value)
          (to_int (strtol times).value)
  main _ = refused

-- A positive count.
abbrev pub count_of : ℤ → ℕ
count_of (pos n) = n
count_of (negsuc n) = 0

-- The whole program, each of whose loops has `fuel` rounds.
unfoldable pub reader :
    (List ℕ → Parsed) → StdioApi → MapApi → (ℕ → ℕ) → ℕ → ℕ → List (List ℕ) → Outcome
reader strtol stdio api raw_buff size fuel argv = elim (main strtol argv) [
  | refused ↦ returned (negsuc 0)
  | seq_reader stride times ↦ Stdio.seq_reader stdio stride fuel (count_of times)
  | raw_reader stride times ↦ Stdio.raw_reader stdio stride fuel (count_of times)
  | mmap_reader stride times ↦ Mmapr.mmap_reader api raw_buff size fuel stride (count_of times)
]
