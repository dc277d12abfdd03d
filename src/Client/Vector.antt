-- ===== src/Client/Vector.antt =====
-- The interrupt vector of client/pmi.c, and init_pmu and fini_pmu of client/pmu.c. What
-- `__register_nmi_handler` and `request_fast_irq` return is given by `VectorApi`.
pub mod Restore
use pmu_min_suite.Prelude.{ℕ, ◌==◌, Bool, true, false, if◌then◌else◌, ℤ, pos, negsuc, is_err}
use pmu_min_suite.Client.Pmu.{
  Settings, Registers, PmiVector, nmi, irq, lvt_entry, pmu_global_init, disable_pmcs_local,
  enable_pmcs_local, recode_pmi,
}

pub record VectorApi : Type 0 where
  pub register_nmi_handler : ℤ
  pub request_fast_irq : ℤ

-- The settings, the registers of each processor, the copy of its LVTPC, and whether the kernel holds
-- the handler.
pub record Pmu : Type 0 where
  pub settings : Settings
  pub cpus : ℕ → Registers
  pub pcpu_lvt_bkp : ℕ → ℕ
  pub nmi_registered : Bool
  pub irq_registered : Bool

-- `irq != RECODE_PMI`
abbrev pub is_recode_pmi : ℤ → Bool
is_recode_pmi (pos n) = n == recode_pmi
is_recode_pmi (negsuc n) = false

unfoldable pub pmi_lvt_setup : Pmu → Pmu
pmi_lvt_setup p = record p {
  pcpu_lvt_bkp = λ cpu. (p.cpus cpu).lvtpc;
  cpus = λ cpu. record (p.cpus cpu) { lvtpc = lvt_entry p.settings.pmi_vector };
}

unfoldable pub pmi_lvt_cleanup : Pmu → Pmu
pmi_lvt_cleanup p = record p { cpus = λ cpu. record (p.cpus cpu) { lvtpc = p.pcpu_lvt_bkp cpu } }

abbrev pub pmi_nmi_setup : VectorApi → Pmu → Pmu × ℤ
pmi_nmi_setup api p =
    if is_err api.register_nmi_handler
    then (p, api.register_nmi_handler)
    else (pmi_lvt_setup (record p { nmi_registered = true }), api.register_nmi_handler)

abbrev pub pmi_nmi_cleanup : Pmu → Pmu
pmi_nmi_cleanup p = record (pmi_lvt_cleanup p) { nmi_registered = false }

abbrev pub pmi_irq_setup : VectorApi → Pmu → Pmu × ℤ
pmi_irq_setup api p =
    if is_recode_pmi api.request_fast_irq
    then (pmi_lvt_setup (record p { irq_registered = true }), pos 0)
    else (p, negsuc 0)

abbrev pub pmi_irq_cleanup : Pmu → Pmu
pmi_irq_cleanup p = record p { irq_registered = false }

abbrev pub pmi_setup : PmiVector → VectorApi → Pmu → Pmu × ℤ
pmi_setup nmi api p = pmi_nmi_setup api p
pmi_setup irq api p = pmi_irq_setup api p

abbrev pub pmi_cleanup : PmiVector → Pmu → Pmu
pmi_cleanup nmi p = pmi_nmi_cleanup p
pmi_cleanup irq p = pmi_irq_cleanup p

abbrev pub enable_all : Pmu → Pmu
enable_all p = record p { cpus = λ cpu. enable_pmcs_local p.settings (p.cpus cpu) }

unfoldable pub pmc_global_fini : Pmu → Pmu
pmc_global_fini p = record p { cpus = λ cpu. disable_pmcs_local (p.cpus cpu) }

unfoldable pub pmi_init : VectorApi → Pmu → Pmu × ℤ
pmi_init api p = let (p', err) = pmi_setup p.settings.pmi_vector api p in (enable_all p', err)

-- `disable_pmcs_global` writes the same registers as `pmc_global_fini`.
unfoldable pub pmi_fini : Pmu → Pmu
pmi_fini p = pmi_cleanup p.settings.pmi_vector (pmc_global_fini p)

-- `configure` is get_machine_configuration on what `cpuid` gives; `pmu_global_init` returns 0.
unfoldable pub init_pmu : (Settings → Settings) → VectorApi → Pmu → Pmu × ℤ
init_pmu configure api p =
    let ((settings, cpus), err) = pmu_global_init (configure p.settings, p.cpus) in
    let p1 = record p { settings = settings; cpus = cpus } in
    if is_err err
    then (p1, err)
    else let (p2, err2) = pmi_init api p1 in
      if is_err err2 then (pmc_global_fini p2, err2) else (p2, pos 0)

unfoldable pub fini_pmu : Pmu → Pmu
fini_pmu p = pmc_global_fini (pmi_fini p)
