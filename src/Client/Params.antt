-- ===== src/Client/Params.antt =====
-- client/params.c: the setters of the module's parameters. The kernel's parsers are arguments, and
-- give the returned code and the parsed value; `configure` is `get_machine_configuration` on what
-- `cpuid` gives.
use pmu_min_suite.Prelude.{
  ℕ, ◌-◌, Bool, true, false, ◌||◌, if◌then◌else◌, ltb, ℤ, pos, negsuc, einval, List,
}
use pmu_min_suite.Client.Pmu.{Settings, bit}

-- `ret < 0`
abbrev pub is_negative : ℤ → Bool
is_negative (pos n) = false
is_negative (negsuc n) = true

-- `val < 12 || val > 48`
abbrev pub out_of_range : ℤ → Bool
out_of_range (pos n) = ltb n 12 || ltb 48 n
out_of_range (negsuc n) = true

-- `BIT_ULL(val) - 1` for a value that is not negative.
abbrev pub period_of : ℤ → ℕ
period_of (pos n) = bit n - 1
period_of (negsuc n) = 0

module _ (configure : Settings → Settings) (kstrtoint : List ℕ → ℤ × ℤ) where
  unfoldable pub readable_pmcs_set : Settings → List ℕ → Settings × ℤ
  readable_pmcs_set s str =
      let s' = configure s in
      let (ret, val) = kstrtoint str in
      if is_negative ret then (s', ret) else (record s' { readable_pmcs = val }, ret)

  unfoldable pub reset_period_set : Settings → List ℕ → Settings × ℤ
  reset_period_set s str =
      let s' = configure s in
      let (ret, val) = kstrtoint str in
      if is_negative ret
      then (s', ret)
      else if out_of_range val
      then (s', einval)
      else (record s' { reset_period = period_of val }, ret)

module _ (kstrtobool : List ℕ → ℤ × Bool) where
  unfoldable pub thread_filter_set : Settings → List ℕ → Settings × ℤ
  thread_filter_set s str =
      let (ret, val) = kstrtobool str in
      if is_negative ret then (s, ret) else (record s { thread_filter = val }, ret)
