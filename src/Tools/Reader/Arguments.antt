-- ===== src/Tools/Reader/Arguments.antt =====
-- What tools/reader.c lets through to the readers.
use pmu_min_suite.Prelude.{
  ℕ, zero, suc, ◌+◌, ◌≤◌, ◌<◌, ◌≡◌, ◌≢◌, refl, Bool, true, false, ◌==◌, if◌then◌else◌, not, ℤ, pos,
  negsuc, List, [], ◌∷◌, arith,
}
use mathlib.Core.Path.{subst}
use pmu_min_suite.Tools.{Outcome, spinning, returned}
use pmu_min_suite.Tools.Mmapr
use pmu_min_suite.Tools.Mmapr.{MapApi, is_negative}
use pmu_min_suite.Tools.Mmapr.Rounds.{mmap_reader_spins}
use pmu_min_suite.Tools.Stdio.{StdioApi, add_all, read_pass, read_passes, stdio_reader}
use pmu_min_suite.Tools.Reader.{
  Parsed, bad_text, to_int, low_bits, bad_mode, below_one, Call, refused, seq_reader, raw_reader,
  mmap_reader, call_of, main, count_of, reader,
}

-- A relation between the stride and the count of a call, where one is made.
unfoldable pub Fits : (ℤ → ℤ → Type 0) → Call → Type 0
Fits P refused = Unit
Fits P (seq_reader stride times) = P stride times
Fits P (raw_reader stride times) = P stride times
Fits P (mmap_reader stride times) = P stride times

call_of-Fits :
    (P : ℤ → ℤ → Type 0) (mode stride times : ℤ)
    → P stride times
    → Fits P (call_of mode stride times)
unfolding Fits
call_of-Fits P (pos zero) stride times h = h
call_of-Fits P (pos (suc zero)) stride times h = h
call_of-Fits P (pos (suc (suc zero))) stride times h = h
call_of-Fits P (pos (suc (suc (suc n)))) stride times h = tt
call_of-Fits P (negsuc n) stride times h = tt

-- A check that refuses hands on its failure.
if-Fits :
    (P : ℤ → ℤ → Type 0) (b : Bool) (c : Call)
    → (b ≡ false → Fits P c)
    → Fits P (if b then refused else c)
unfolding Fits
if-Fits P true c h = tt
if-Fits P false c h = h refl

1-le-count_of : (n : ℤ) → below_one n ≡ false → 1 ≤ count_of n
1-le-count_of (pos n) h = ground arith
1-le-count_of (negsuc n) h = cc

eq-zero : (n : ℕ) → not (n == 0) ≡ false → n ≡ 0
eq-zero n h = ground arith

-- A stride and a count as the readers need them.
abbrev pub IsChecked : ℤ → ℤ → Type 0
IsChecked stride times = (low_bits stride ≡ 0) × (1 ≤ count_of times)

-- A checked call with a given stride.
abbrev With : ℤ → ℤ → ℤ → Type 0
With stride s t = (s ≡ stride) × IsChecked s t

main_three :
    (strtol : List ℕ → Parsed) (mode times stride : List ℕ)
    → Fits (With (to_int (strtol stride).value)) (main strtol (mode ∷ (times ∷ (stride ∷ []))))
unfolding main
main_three strtol mode times stride = if-Fits _ (bad_text strtol true mode) _ (λ a.
    if-Fits _ (bad_mode (to_int (strtol mode).value)) _ (λ b.
      if-Fits _ (bad_text strtol false times) _ (λ c.
        if-Fits _ (below_one (to_int (strtol times).value)) _ (λ d.
          if-Fits _ (bad_text strtol false stride) _ (λ e.
            if-Fits _ (not (low_bits (to_int (strtol stride).value) == 0)) _ (λ f.
              call_of-Fits _ (to_int (strtol mode).value) (to_int (strtol stride).value)
                (to_int (strtol times).value)
                (refl, (eq-zero _ f, 1-le-count_of (to_int (strtol times).value) d))))))))

weaken : (stride : ℤ) (c : Call) → Fits (With stride) c → Fits IsChecked c
unfolding Fits
weaken stride refused h = tt
weaken stride (seq_reader s t) h = h.1
weaken stride (raw_reader s t) h = h.1
weaken stride (mmap_reader s t) h = h.1

-- Whatever the arguments, `main` calls a reader only with a positive number of times and a stride
-- whose three lowest bits are 0.
main-Fits : (strtol : List ℕ → Parsed) (argv : List (List ℕ)) → Fits IsChecked (main strtol argv)
unfolding main Fits
main-Fits strtol [] = tt
main-Fits strtol (mode ∷ []) = tt
main-Fits strtol (mode ∷ (times ∷ [])) = tt
main-Fits strtol (mode ∷ (times ∷ (stride ∷ []))) =
    weaken (to_int (strtol stride).value) _ (main_three strtol mode times stride)
main-Fits strtol (mode ∷ (times ∷ (stride ∷ (more ∷ rest)))) = tt

-- A `fread` of no bytes reads nothing and does not mark the end of the file.
abbrev pub ReadsNothing : StdioApi → Type 0
ReadsNothing api = (call : ℕ) → api.fread (pos 0) call ≡ ([], false)

read_pass_spins :
    (api : StdioApi) (fuel call sum : ℕ)
    → ReadsNothing api
    → read_pass api (pos 0) fuel call sum ≡ spinning
unfolding read_pass
read_pass_spins api zero call sum h = refl
read_pass_spins api (suc fuel) call sum h =
    ground (
      arith,
      h call,
      read_pass_spins api fuel (call + 1) (add_all (api.fread (pos 0) call).0 sum) h,
    )

stdio_reader_spins :
    (api : StdioApi) (fuel times : ℕ)
    → api.malloc (pos 0) ≡ true
    → api.fopen ≡ true
    → ReadsNothing api
    → 1 ≤ times
    → stdio_reader api (pos 0) fuel times ≡ spinning
unfolding stdio_reader read_passes
stdio_reader_spins api fuel zero hm hf h ht = absurd (omega arith)
stdio_reader_spins api fuel (suc times) hm hf h ht = ground (arith, read_pass_spins api fuel 0 0 h)

-- The effect of a call of `main`.
abbrev run : StdioApi → MapApi → (ℕ → ℕ) → ℕ → ℕ → Call → Outcome
run stdio api raw_buff size fuel refused = returned (negsuc 0)
run stdio api raw_buff size fuel (seq_reader stride times) =
    stdio_reader stdio stride fuel (count_of times)
run stdio api raw_buff size fuel (raw_reader stride times) =
    stdio_reader stdio stride fuel (count_of times)
run stdio api raw_buff size fuel (mmap_reader stride times) =
    Mmapr.mmap_reader api raw_buff size fuel stride (count_of times)

-- Every call of the library that the program makes before its loop succeeds.
abbrev pub AllOpen : StdioApi → MapApi → Type 0
AllOpen stdio api =
    (stdio.malloc (pos 0) ≡ true)
    × (stdio.fopen ≡ true)
    × (is_negative api.fd ≡ false)
    × (api.mmap ≡ true)

run_spins :
    (stdio : StdioApi) (api : MapApi) (raw_buff : ℕ → ℕ) (size fuel : ℕ) (c : Call)
    → ReadsNothing stdio
    → AllOpen stdio api
    → 0 < size
    → c ≢ refused
    → Fits (With (pos 0)) c
    → run stdio api raw_buff size fuel c ≡ spinning
unfolding Fits
run_spins stdio api raw_buff size fuel refused hr ho hs ne h = absurd (ne refl)
run_spins stdio api raw_buff size fuel (seq_reader s t) hr ho hs ne h =
    rw h.0 (stdio_reader_spins stdio fuel (count_of t) ho.0 ho.1 hr h.1.1)
run_spins stdio api raw_buff size fuel (raw_reader s t) hr ho hs ne h =
    rw h.0 (stdio_reader_spins stdio fuel (count_of t) ho.0 ho.1 hr h.1.1)
run_spins stdio api raw_buff size fuel (mmap_reader s t) hr ho hs ne h =
    rw h.0 (mmap_reader_spins raw_buff size api fuel (count_of t) ho.2 ho.3 hs h.1.1)

-- If the last argument is a text that `strtol` reads as 0, as it does the empty text, the checks let
-- the arguments through, the calls before the loops succeed, `malloc` of no bytes among them, a read of
-- no bytes gives none and does not mark the end of the file, and the mapped area is not empty, then no
-- reader ever ends, whatever its mode: on every fuel it is still running.
pub reader_spins :
    (strtol : List ℕ → Parsed) (stdio : StdioApi) (api : MapApi) (raw_buff : ℕ → ℕ) (size fuel : ℕ)
    (mode times stride : List ℕ)
    → (strtol stride).value ≡ pos 0
    → main strtol (mode ∷ (times ∷ (stride ∷ []))) ≢ refused
    → ReadsNothing stdio
    → AllOpen stdio api
    → 0 < size
    → reader strtol stdio api raw_buff size fuel (mode ∷ (times ∷ (stride ∷ []))) ≡ spinning
unfolding reader
reader_spins strtol stdio api raw_buff size fuel mode times stride hz ne hr ho hs =
    run_spins stdio api raw_buff size fuel (main strtol (mode ∷ (times ∷ (stride ∷ [])))) hr ho hs
      ne
      (subst (λ v. Fits (With (to_int v)) (main strtol (mode ∷ (times ∷ (stride ∷ []))))) hz
        (main_three strtol mode times stride))
