-- ===== src/Client/Pmu.antt =====
-- client/pmu.c and client/pmu_low.h, built for a machine with FAST_IRQ and not for a virtual one:
-- the module's settings, and the registers of one processor that it writes.
use pmu_min_suite.Prelude.{
  ℕ, zero, suc, ◌-◌, ◌*◌, ◌/◌, ◌%◌, ◌^◌, Bool, true, ◌==◌, if◌then◌else◌, ltb, bit_and, bit_or, ℤ,
  pos,
}
use pmu_min_suite.Prelude.Family.{update}

pub data PmiVector : Type 0 where
  nmi : PmiVector
  irq : PmiVector

-- `readable_pmcs` is an `int`; `gbl_fixed_pmc_pmi` is one that is never negative.
pub record Settings : Type 0 where
  pub machine_info_read : Bool
  pub gbl_fixed_ctrl : ℕ
  pub gbl_fixed_pmc_pmi : ℕ
  pub gbl_nr_pmc_fixed : ℕ
  pub gbl_nr_pmc_general : ℕ
  pub readable_pmcs : ℤ
  pub reset_period : ℕ
  pub pmi_vector : PmiVector
  pub thread_filter : Bool

-- The registers of a processor by what they are for: LVTPC of the interrupt controller, the
-- model-specific registers, and how often `apic_eoi` was called.
pub record Registers : Type 0 where
  pub lvtpc : ℕ
  pub eois : ℕ
  pub global_status : ℕ
  pub global_ovf_ctrl : ℕ
  pub global_ctrl : ℕ
  pub debugctl : ℕ
  pub fixed_ctr_ctrl : ℕ
  pub fixed_ctr : ℕ → ℕ
  pub general_ctr : ℕ → ℕ

abbrev pub shl : ℕ → ℕ → ℕ
shl x k = x * 2 ^ k % 2 ^ 64

abbrev pub bit : ℕ → ℕ
bit k = shl 1 k

abbrev pub complement : ℕ → ℕ
complement x = 2 ^ 64 - 1 - x

unfoldable pub pmc_trim : ℕ → ℕ
pmc_trim n = bit_and n (bit 48 - 1)

abbrev pub lvt_nmi : ℕ
lvt_nmi = shl 4 8

abbrev pub recode_pmi : ℕ
recode_pmi = 239

abbrev pub lvt_entry : PmiVector → ℕ
lvt_entry nmi = lvt_nmi
lvt_entry irq = recode_pmi

abbrev pub write_fixed_pmc : Registers → ℕ → ℕ → Registers
write_fixed_pmc r n v = record r { fixed_ctr = update r.fixed_ctr n (pmc_trim v) }

-- What leaf 10 of `cpuid` gives in eax and edx is the argument.
abbrev pub mask_length : ℕ → ℕ
mask_length eax = eax / 2 ^ 24 % 2 ^ 8

abbrev pub num_counters : ℕ → ℕ
num_counters eax = eax / 2 ^ 8 % 2 ^ 8

abbrev pub num_counters_fixed : ℕ → ℕ
num_counters_fixed edx = edx % 2 ^ 5

unfoldable pub get_machine_configuration : ℕ → ℕ → Settings → Settings
get_machine_configuration eax edx s =
    if s.machine_info_read then s else if ltb (mask_length eax) 7 then s else record s {
      gbl_nr_pmc_general = num_counters eax;
      gbl_nr_pmc_fixed = num_counters_fixed edx;
      machine_info_read = true;
    }

-- `FIXED_PMCS_TO_BITS_MASK`
abbrev pub fixed_pmcs_to_bits_mask : Settings → ℕ
fixed_pmcs_to_bits_mask s = shl (bit s.gbl_nr_pmc_fixed - 1) 32

abbrev pub enable_pmcs_local : Settings → Registers → Registers
enable_pmcs_local s r = record r { global_ctrl = fixed_pmcs_to_bits_mask s }

abbrev pub disable_pmcs_local : Registers → Registers
disable_pmcs_local r = record r { global_ctrl = 0 }

-- The loop of `__init_pmu_local` over the first `n` fixed counters.
unfoldable pub init_fixed : Settings → ℕ → Registers → Registers
init_fixed s zero r = r
init_fixed s (suc n) r =
    let before = init_fixed s n r in
    if n == s.gbl_fixed_pmc_pmi
    then write_fixed_pmc before n (pmc_trim (complement s.reset_period))
    else write_fixed_pmc before n 0

unfoldable pub init_pmu_local : Settings → Registers → Registers
init_pmu_local s r =
    record (init_fixed s s.gbl_nr_pmc_fixed (record r {
      lvtpc = lvt_entry s.pmi_vector;
      global_ovf_ctrl = r.global_status;
      debugctl = bit 12;
    })) { fixed_ctr_ctrl = s.gbl_fixed_ctrl }

-- `gbl_fixed_ctrl` after the part of the loop of `pmu_global_init` for one counter.
abbrev pub add_ctrl : ℕ → ℕ → ℕ → ℕ
add_ctrl pmi ctrl pmc =
    let with_pmi = if pmc == pmi then bit_or ctrl (shl (bit 3) (pmc * 4)) else ctrl in
    bit_or (bit_or with_pmi (shl (bit 1) (pmc * 4))) (shl (bit 0) (pmc * 4))

unfoldable pub fixed_ctrl_loop : ℕ → ℕ → ℕ → ℕ
fixed_ctrl_loop pmi ctrl zero = ctrl
fixed_ctrl_loop pmi ctrl (suc n) = add_ctrl pmi (fixed_ctrl_loop pmi ctrl n) n

-- `on_each_cpu` runs the local part on every processor.
unfoldable pub pmu_global_init : Settings × (ℕ → Registers) → (Settings × (ℕ → Registers)) × ℤ
pmu_global_init (s, cpus) =
    let s' = record s {
      gbl_fixed_ctrl = fixed_ctrl_loop s.gbl_fixed_pmc_pmi s.gbl_fixed_ctrl s.gbl_nr_pmc_fixed;
    } in
    ((s', λ cpu. init_pmu_local s' (cpus cpu)), pos 0)

unfoldable pub pmc_global_fini : Settings × (ℕ → Registers) → Settings × (ℕ → Registers)
pmc_global_fini (s, cpus) = (s, λ cpu. disable_pmcs_local (cpus cpu))

unfoldable pub enable_pmcs_global : Settings × (ℕ → Registers) → Settings × (ℕ → Registers)
enable_pmcs_global (s, cpus) = (s, λ cpu. enable_pmcs_local s (cpus cpu))
