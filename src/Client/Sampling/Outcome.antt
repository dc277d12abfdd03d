-- ===== src/Client/Sampling/Outcome.antt =====
-- The outcomes of the handler of client/pmi.c, whatever the status is.
use pmu_min_suite.Prelude.{
  ℕ, ◌≤◌, ◌≡◌, ◌≢◌, refl, ◌∙◌, ◌⊎◌, inl, inr, arith, none, some, Option-cases,
}
use Prim.Native.Nat.{bit_and}
use native.Mathlib.Decide.{ℕ_discrete}
use pmu_min_suite.Prelude.Lists.{length}
use pmu_min_suite.Client.Pmu.{Settings, Registers}
use pmu_min_suite.Client.Pmi.{
  PmcsData, ProcData, Machine, rounds, read_all, snapshot_pmc, pmi_handler,
}
use pmu_min_suite.Client.Pmi.Handler.{
  IsRead, handled, counted, sampled, read_pmcs-some, read_all-some, pmi_handler-nonzero,
  pmi_handler-some,
}

-- The arrays of the C structure.
pub record HasSizes (d : PmcsData) : Type 0 where
  pub fixed : length d.fixed ≡ 3
  pub general : length d.general ≡ 8

-- The settings read no more counters than the structure has room for.
pub record FitsSample (s : Settings) : Type 0 where
  pub fixed : s.gbl_nr_pmc_fixed ≤ 3
  pub general : rounds s.readable_pmcs ≤ 8

read_all_lem :
    (s : Settings) (r : Registers) (d : PmcsData)
    → FitsSample s
    → HasSizes d
    → (d' : PmcsData) × (read_all s r d ≡ some d') × HasSizes d'
unfolding IsRead
read_all_lem s r d fits sizes =
    let (fixed, ef, (lf, rf, kf)) =
      read_pmcs-some r.fixed_ctr s.gbl_nr_pmc_fixed d.fixed
        (omega (arith, fits.fixed, sizes.fixed)) in
    let (general, eg, (lg, rg, kg)) =
      read_pmcs-some (λ pmc. r.general_ctr (bit_and pmc 1)) (rounds s.readable_pmcs) d.general
        (omega (arith, fits.general, sizes.general)) in
    (
      record { fixed = fixed; general = general },
      read_all-some s r d fixed general ef eg,
      record { fixed = lf ∙ sizes.fixed; general = lg ∙ sizes.general },
    )

module _ {W : Type 0} (write_sample : ℕ → PmcsData → W → W) where
  -- Nothing was sampled.
  pub record Kept (m m' : Machine W) : Type 0 where
    pub same_world : m'.world ≡ m.world
    pub same_data : m'.proc_data ≡ m.proc_data

  pub record Sampled (m m' : Machine W) : Type 0 where
    pub before : ProcData
    pub taken : PmcsData
    pub was_there : m.proc_data ≡ some before
    pub is_stored : m'.proc_data ≡ some (record before { pmcs = taken })
    pub is_written : m'.world ≡ write_sample before.clist taken m.world
    pub sizes : HasSizes taken

  zero_status :
      (s : Settings) (m : Machine W)
      → m.regs.global_status ≡ 0
      → pmi_handler write_sample s m ≡ some (m, 0)
  unfolding pmi_handler
  zero_status s m e = ground arith

  no_snapshot :
      (s : Settings) (m : Machine W) → m.proc_data ≡ none → snapshot_pmc write_sample s m ≡ some m
  unfolding snapshot_pmc
  no_snapshot s m e = ground arith

  untracked :
      (s : Settings) (m : Machine W)
      → m.regs.global_status ≢ 0
      → m.proc_data ≡ none
      → pmi_handler write_sample s m ≡ some (handled s m.regs.global_status (counted m), 1)
  unfolding counted
  untracked s m ne e =
      rw (pmi_handler-nonzero write_sample s m ne, no_snapshot s (counted m) e) refl

  -- If the settings fit the sample and the structure of the task has its arrays, the handler has a
  -- defined behaviour for every status and every task: it samples nothing, or it stores and writes
  -- one sample of the task.
  pub pmi_handler_outcome :
      (s : Settings) (m : Machine W)
      → FitsSample s
      → ((p : ProcData) → m.proc_data ≡ some p → HasSizes p.pmcs)
      → (m' : Machine W) × (n : ℕ) × (pmi_handler write_sample s m ≡ some (m', n))
        × (Kept m m' ⊎ Sampled m m')
  unfolding handled counted sampled
  pmi_handler_outcome s m fits sizes = elim (ℕ_discrete m.regs.global_status 0) [
    | yes e ↦ (m, 0, zero_status s m e, inl (record { same_world = refl; same_data = refl }))
    | no ne ↦ elim (Option-cases m.proc_data) [
      | inl e ↦ (
        handled s m.regs.global_status (counted m),
        1,
        untracked s m ne e,
        inl (record { same_world = refl; same_data = refl }),
      )
      | inr (p, e) ↦
          let (d, ed, sized) = read_all_lem s m.regs p.pmcs fits (sizes p e) in
          (
            handled s m.regs.global_status (sampled write_sample d p (counted m)),
            1,
            pmi_handler-some write_sample s m p d e ne ed,
            inr (record {
              before = p;
              taken = d;
              was_there = e;
              is_stored = refl;
              is_written = refl;
              sizes = sized;
            }),
          )
    ]
  ]
