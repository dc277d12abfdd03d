-- ===== src/Client/Pmi/Handler.antt =====
-- The handler of client/pmi.c on an interrupt with a status that is not 0.
use pmu_min_suite.Prelude.{
  ℕ, zero, suc, ◌+◌, ◌%◌, ◌^◌, ◌≤◌, ◌<◌, ◌≡◌, ◌≢◌, refl, List, [], ◌∷◌, arith, ℤ, pos, false, none,
  some, ◌==◌, bit_and, if◌then◌else◌,
}
use native.Mathlib.Decide.{dec_lt}
use pmu_min_suite.Prelude.Family.{update_self}
use pmu_min_suite.Prelude.Lists.{length, overwrite, get_elem?, length-overwrite}
use pmu_min_suite.Client.Pmu.{Settings, Registers, complement, pmc_trim, write_fixed_pmc}
use pmu_min_suite.Client.Params.{readable_pmcs_set}
use pmu_min_suite.Client.Pmi.{
  PmcsData, ProcData, Machine, read_pmcs, rounds, read_all, not_from_pmc, acknowledge, snapshot_pmc,
  pmi_handler,
}
use pmu_min_suite.Client.Pmi.Period.{armed}

get_elem?-overwrite :
    (a : List ℕ) (n v i : ℕ)
    → n < length a
    → get_elem? (overwrite a n (v ∷ [])) i ≡ (if i == n then some v else get_elem? a i)
get_elem?-overwrite [] n v i h = absurd (omega arith)
get_elem?-overwrite (x ∷ a) zero v zero h = refl
get_elem?-overwrite (x ∷ []) zero v (suc i) h = ground arith
get_elem?-overwrite (x ∷ (y ∷ a)) zero v (suc i) h = ground arith
get_elem?-overwrite (x ∷ a) (suc n) v zero h = ground arith
get_elem?-overwrite (x ∷ a) (suc n) v (suc i) h = ground (arith, get_elem?-overwrite a n v i)

-- The array after the loop that reads the first `n` counters into it.
unfoldable pub IsRead : (ℕ → ℕ) → ℕ → List ℕ → List ℕ → Type 0
IsRead read n a a' =
    (length a' ≡ length a)
    × ((i : ℕ) → i < n → get_elem? a' i ≡ some (read i))
    × ((i : ℕ) → n ≤ i → get_elem? a' i ≡ get_elem? a i)

pub read_pmcs-some :
    (read : ℕ → ℕ) (n : ℕ) (a : List ℕ)
    → n ≤ length a
    → (a' : List ℕ) × (read_pmcs read n a ≡ some a') × IsRead read n a a'
unfolding read_pmcs IsRead
read_pmcs-some read zero a h = (a, refl, (refl, λ i lt. absurd (omega arith), λ i le. refl))
read_pmcs-some read (suc n) a h =
    let (b, e, (l, r, o)) = read_pmcs-some read n a (omega arith) in
    (
      overwrite b n (read n ∷ []),
      ground arith,
      (
        ground (arith, length-overwrite b n (read n ∷ [])),
        λ i lt. ground (arith, r i, get_elem?-overwrite b n (read n) i),
        λ i le. ground (arith, o i, get_elem?-overwrite b n (read n) i),
      ),
    )

read_pmcs-none : (read : ℕ → ℕ) (n : ℕ) (a : List ℕ) → length a < n → read_pmcs read n a ≡ none
unfolding read_pmcs IsRead
read_pmcs-none read zero a h = absurd (omega arith)
read_pmcs-none read (suc n) a h = elim (dec_lt (length a) n) [
  | yes lt ↦ ground (arith, read_pmcs-none read n a lt)
  | no ge ↦ let (b, e, (l, r, o)) = read_pmcs-some read n a (omega arith) in ground arith
]

never_filtered : (s : Settings) (global : ℕ) → global ≢ 0 → not_from_pmc s global ≡ false
unfolding not_from_pmc
never_filtered s global h = ground arith

read_all-none :
    (s : Settings) (r : Registers) (d : PmcsData)
    → length d.general < rounds s.readable_pmcs
    → read_all s r d ≡ none
unfolding read_all
read_all-none s r d h = ground (
  arith,
  read_pmcs-none (λ pmc. r.general_ctr (bit_and pmc 1)) (rounds s.readable_pmcs) d.general h,
)

pub read_all-some :
    (s : Settings) (r : Registers) (d : PmcsData) (fixed general : List ℕ)
    → read_pmcs r.fixed_ctr s.gbl_nr_pmc_fixed d.fixed ≡ some fixed
    → read_pmcs (λ pmc. r.general_ctr (bit_and pmc 1)) (rounds s.readable_pmcs) d.general
      ≡ some general
    → read_all s r d ≡ some (record { fixed = fixed; general = general })
unfolding read_all
read_all-some s r d fixed general ef eg = ground (arith, ef, eg)

-- The state after a handled interrupt whose snapshot left `m`.
unfoldable pub handled : {W : Type 0} → Settings → ℕ → Machine W → Machine W
handled s global m = record m {
  regs =
      acknowledge s global
        (write_fixed_pmc m.regs s.gbl_fixed_pmc_pmi (pmc_trim (complement s.reset_period)));
}

unfoldable pub counted : {W : Type 0} → Machine W → Machine W
counted m = record m { pmi_counter = (m.pmi_counter + 1) % 2 ^ 32 }

module _ {W : Type 0} (write_sample : ℕ → PmcsData → W → W) where
  pub pmi_handler-nonzero :
      (s : Settings) (m : Machine W)
      → m.regs.global_status ≢ 0
      → pmi_handler write_sample s m ≡ elim (snapshot_pmc write_sample s (counted m)) [
        | none ↦ none
        | some m' ↦ some (handled s m.regs.global_status m', 1)
      ]
  unfolding pmi_handler handled counted
  pmi_handler-nonzero s m h = ground (arith, never_filtered s m.regs.global_status h)

  unfoldable pub sampled : PmcsData → ProcData → Machine W → Machine W
  sampled d p m = record m {
    proc_data = some (record p { pmcs = d });
    world = write_sample p.clist d m.world;
  }

  pub pmi_handler-some :
      (s : Settings) (m : Machine W) (p : ProcData) (d : PmcsData)
      → m.proc_data ≡ some p
      → m.regs.global_status ≢ 0
      → read_all s m.regs p.pmcs ≡ some d
      → pmi_handler write_sample s m
        ≡ some (handled s m.regs.global_status (sampled d p (counted m)), 1)
  unfolding snapshot_pmc sampled counted
  pmi_handler-some s m p d hp hg hd = rw (pmi_handler-nonzero s m hg, snapshot_pmc, hp, hd) refl

  pmi_handler-none :
      (s : Settings) (m : Machine W) (p : ProcData)
      → m.proc_data ≡ some p
      → m.regs.global_status ≢ 0
      → read_all s m.regs p.pmcs ≡ none
      → pmi_handler write_sample s m ≡ none
  unfolding snapshot_pmc counted
  pmi_handler-none s m p hp hg hd = rw (pmi_handler-nonzero s m hg, snapshot_pmc, hp, hd) refl

  -- For every status that is not 0, if the running task has its structure and the counters have room
  -- in the sample, the handler returns 1: it has handed one sample to write_sample, which holds in order the fixed counters and, in the
  -- read part of the general ones, the first two by turns, and else what it held before; the counter
  -- of the interrupt is set again and the status is written back to be cleared.
  pub pmi_handler_lem :
      (s : Settings) (m : Machine W) (p : ProcData)
      → m.proc_data ≡ some p
      → m.regs.global_status ≢ 0
      → s.gbl_nr_pmc_fixed ≤ length p.pmcs.fixed
      → rounds s.readable_pmcs ≤ length p.pmcs.general
      → (m' : Machine W) × (d : PmcsData) × (pmi_handler write_sample s m ≡ some (m', 1))
        × (m'.world ≡ write_sample p.clist d m.world)
        × IsRead m.regs.fixed_ctr s.gbl_nr_pmc_fixed p.pmcs.fixed d.fixed
        × IsRead
            (λ pmc. m.regs.general_ctr (bit_and pmc 1))
            (rounds s.readable_pmcs)
            p.pmcs.general
            d.general
        × (m'.regs.fixed_ctr s.gbl_fixed_pmc_pmi ≡ armed s.reset_period)
        × (m'.regs.global_ovf_ctrl ≡ m.regs.global_status)
  unfolding handled sampled counted read_all
  pmi_handler_lem s m p hp hg hf hr =
      let (fixed, ef, rf) = read_pmcs-some m.regs.fixed_ctr s.gbl_nr_pmc_fixed p.pmcs.fixed hf in
      let (general, eg, rg) =
        read_pmcs-some (λ pmc. m.regs.general_ctr (bit_and pmc 1)) (rounds s.readable_pmcs)
          p.pmcs.general hr in
      (
        handled s m.regs.global_status
            (sampled (record { fixed = fixed; general = general }) p (counted m)),
        record { fixed = fixed; general = general },
        pmi_handler-some s m p (record { fixed = fixed; general = general }) hp hg
            (read_all-some s m.regs p.pmcs fixed general ef eg),
        refl,
        rf,
        rg,
        update_self m.regs.fixed_ctr s.gbl_fixed_pmc_pmi _,
        refl,
      )

  -- If the setter of `readable_pmcs` is given a number above the room for general counters, it
  -- returns 0, and the next handler that finds a task with data and a status that is not 0 writes
  -- behind the end of the sample.
  pub pmi_handler-readable_pmcs_set :
      (configure : Settings → Settings) (kstrtoint : List ℕ → ℤ × ℤ) (s : Settings) (str : List ℕ)
      (v : ℕ) (m : Machine W) (p : ProcData)
      → kstrtoint str ≡ (pos 0, pos v)
      → m.proc_data ≡ some p
      → m.regs.global_status ≢ 0
      → length p.pmcs.general < v
      → ((readable_pmcs_set configure kstrtoint s str).1 ≡ pos 0)
        × (pmi_handler write_sample (readable_pmcs_set configure kstrtoint s str).0 m ≡ none)
  unfolding readable_pmcs_set
  pmi_handler-readable_pmcs_set configure kstrtoint s str v m p e hp hg hv = (
    rw e refl,
    pmi_handler-none (readable_pmcs_set configure kstrtoint s str).0 m p hp hg
        (read_all-none (readable_pmcs_set configure kstrtoint s str).0 m.regs p.pmcs (rw e hv)),
  )
