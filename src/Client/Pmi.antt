-- ===== src/Client/Pmi.antt =====
-- client/pmi.c: the handler of the performance monitoring interrupt. `proc_data` of the task is what
-- query_data_tracker gives; write_sample is an argument, which takes the address `clist` and the
-- sample. `none` is a write behind the end of an array.
pub mod Period
pub mod Handler
use pmu_min_suite.Prelude.{
  ℕ, zero, suc, ◌+◌, ◌-◌, ◌*◌, ◌%◌, ◌/◌, ◌^◌, Bool, true, false, ◌&&◌, ◌||◌, not, Option, none,
  some, ◌==◌, if◌then◌else◌, ltb, bit_and, ℤ, pos, negsuc, List, [], ◌∷◌,
}
use pmu_min_suite.Prelude.Lists.{length, overwrite}
use pmu_min_suite.Client.Pmu.{
  Settings, Registers, shl, bit, complement, pmc_trim, lvt_entry, write_fixed_pmc, PmiVector, nmi,
  irq,
}

-- The lists have 3 and 8 elements.
pub record PmcsData : Type 0 where
  pub fixed : List ℕ
  pub general : List ℕ

pub record ProcData : Type 0 where
  pub clist : ℕ
  pub pmcs : PmcsData

-- `a[i] = v`
abbrev pub store : List ℕ → ℕ → ℕ → Option (List ℕ)
store a i v = if ltb i (length a) then some (overwrite a i (v ∷ [])) else none

-- `for (pmc = 0; pmc < n; ++pmc) a[pmc] = read(pmc)`
unfoldable pub read_pmcs : (ℕ → ℕ) → ℕ → List ℕ → Option (List ℕ)
read_pmcs read zero a = some a
read_pmcs read (suc n) a = elim (read_pmcs read n a) [ none ↦ none | some a' ↦ store a' n (read n) ]

-- The number of rounds of `for_each_pmc(pmc, max)` for an `int`.
abbrev pub rounds : ℤ → ℕ
rounds (pos n) = n
rounds (negsuc n) = 0

unfoldable pub read_all : Settings → Registers → PmcsData → Option PmcsData
read_all s r d = elim (read_pmcs r.fixed_ctr s.gbl_nr_pmc_fixed d.fixed) [
  | none ↦ none
  | some fixed ↦
      elim (read_pmcs (λ pmc. r.general_ctr (bit_and pmc 1)) (rounds s.readable_pmcs) d.general) [
        | none ↦ none
        | some general ↦ some (record { fixed = fixed; general = general })
      ]
]

pub record Machine (W : Type 0) : Type 0 where
  pub regs : Registers
  pub pmi_counter : ℕ
  pub proc_data : Option ProcData
  pub world : W

abbrev pub fixed0_mask : ℕ
fixed0_mask = bit 32

abbrev pub cond_chgd_ignore_mask : ℕ
cond_chgd_ignore_mask = bit 63 - 1

-- `x != 0`, the value of a word as a condition.
abbrev pub nonzero : ℕ → Bool
nonzero x = not (x == 0)

-- The condition of the branch for interrupts that no counter raised, as it is written.
unfoldable pub not_from_pmc : Settings → ℕ → Bool
not_from_pmc s global =
    not (nonzero (bit_and global (shl fixed0_mask s.gbl_fixed_pmc_pmi)))
    && not (nonzero global && nonzero cond_chgd_ignore_mask)

abbrev pub eoi : PmiVector → ℕ → ℕ
eoi nmi n = n
eoi irq n = (suc n)

-- What follows the label `no_pmi`.
abbrev pub acknowledge : Settings → ℕ → Registers → Registers
acknowledge s global r = record r {
  lvtpc = lvt_entry s.pmi_vector;
  eois = eoi s.pmi_vector r.eois;
  global_ovf_ctrl = global;
}

module _ {W : Type 0} (write_sample : ℕ → PmcsData → W → W) where
  unfoldable pub snapshot_pmc : Settings → Machine W → Option (Machine W)
  snapshot_pmc s m = elim m.proc_data [
    | none ↦ some m
    | some p ↦ elim (read_all s m.regs p.pmcs) [
      | none ↦ none
      | some pmcs ↦ some (record m {
        proc_data = some (record p { pmcs = pmcs });
        world = write_sample p.clist pmcs m.world;
      })
    ]
  ]

  -- The counter of interrupts is an `int` that nothing reads but the report at the end: its 32 bits.
  unfoldable pub pmi_handler : Settings → Machine W → Option (Machine W × ℕ)
  pmi_handler s m =
      let global = m.regs.global_status in
      if not (nonzero global)
      then some (m, 0)
      else if not_from_pmc s global
      then some (record m { regs = acknowledge s global m.regs }, 0)
      else elim (snapshot_pmc s (record m { pmi_counter = (m.pmi_counter + 1) % 2 ^ 32 })) [
        | none ↦ none
        | some m' ↦ some (
          record m' {
            regs = acknowledge s global (
                write_fixed_pmc m'.regs s.gbl_fixed_pmc_pmi (pmc_trim (complement s.reset_period)));
          },
          1,
        )
      ]
