-- ===== src/Client/Vector/Restore.antt =====
-- What is left in the registers after init_pmu and fini_pmu of client/pmu.c.
use pmu_min_suite.Prelude.{ℕ, zero, suc, ◌≡◌, refl, true, false, is_err, arith}
use pmu_min_suite.Client.Pmu.{
  Settings, Registers, nmi, irq, lvt_entry, pmu_global_init, fixed_pmcs_to_bits_mask,
  init_pmu_local, init_fixed,
}
use pmu_min_suite.Client.Vector.{
  VectorApi, Pmu, pmi_lvt_setup, pmi_lvt_cleanup, pmc_global_fini, pmi_init, pmi_fini, init_pmu,
  fini_pmu,
}

-- If init_pmu returns an error, the counters of every processor are off; if it returns 0, each
-- processor has exactly the fixed counters on that the machine has, and takes the interrupt at the
-- vector of the settings.
pub init_pmu_lem :
    (configure : Settings → Settings) (api : VectorApi) (p : Pmu) (cpu : ℕ)
    → (is_err (init_pmu configure api p).1 ≡ true
        → ((init_pmu configure api p).0.cpus cpu).global_ctrl ≡ 0)
      × (is_err (init_pmu configure api p).1 ≡ false
          → (((init_pmu configure api p).0.cpus cpu).global_ctrl
              ≡ fixed_pmcs_to_bits_mask (configure p.settings))
            × (((init_pmu configure api p).0.cpus cpu).lvtpc
                ≡ lvt_entry (configure p.settings).pmi_vector))
unfolding init_pmu pmu_global_init pmi_init pmc_global_fini pmi_lvt_setup
init_pmu_lem configure api p cpu = ground arith

lvtpc-init_fixed : (s : Settings) (n : ℕ) (r : Registers) → (init_fixed s n r).lvtpc ≡ r.lvtpc
unfolding init_fixed
lvtpc-init_fixed s zero r = refl
lvtpc-init_fixed s (suc n) r = ground (arith, lvtpc-init_fixed s n r)

lvtpc-init_pmu_local :
    (s : Settings) (r : Registers) → (init_pmu_local s r).lvtpc ≡ lvt_entry s.pmi_vector
unfolding init_pmu_local
lvtpc-init_pmu_local s r = lvtpc-init_fixed s s.gbl_nr_pmc_fixed _

global_lvtpc :
    (configure : Settings → Settings) (p : Pmu) (cpu : ℕ)
    → ((pmu_global_init (configure p.settings, p.cpus)).0.1 cpu).lvtpc
      ≡ lvt_entry (configure p.settings).pmi_vector
unfolding pmu_global_init
global_lvtpc configure p cpu = lvtpc-init_pmu_local _ (p.cpus cpu)

-- What init_pmu leaves for the way back.
init_pmu-saved :
    (configure : Settings → Settings) (api : VectorApi) (p : Pmu) (cpu : ℕ)
    → is_err (init_pmu configure api p).1 ≡ false
    → ((init_pmu configure api p).0.pcpu_lvt_bkp cpu ≡ lvt_entry (configure p.settings).pmi_vector)
      × ((init_pmu configure api p).0.settings.pmi_vector ≡ (configure p.settings).pmi_vector)
unfolding init_pmu pmu_global_init pmi_init pmi_lvt_setup
init_pmu-saved configure api p cpu h = ground (arith, global_lvtpc configure p cpu)

pub fini_pmu_lem :
    (p : Pmu) (cpu : ℕ)
    → (((fini_pmu p).cpus cpu).global_ctrl ≡ 0)
      × (((fini_pmu p).cpus cpu).lvtpc
          ≡ elim p.settings.pmi_vector [ nmi ↦ p.pcpu_lvt_bkp cpu | irq ↦ (p.cpus cpu).lvtpc ])
unfolding fini_pmu pmi_fini pmc_global_fini pmi_lvt_cleanup
fini_pmu_lem p cpu = ground arith

-- After init_pmu has returned 0 and fini_pmu has run, each processor has its counters off, but its
-- LVTPC is the one that the module wrote, whatever it was before: for NMI the saved copy was taken
-- after the first write, and for IRQ nothing is restored.
pub lvtpc-fini_pmu :
    (configure : Settings → Settings) (api : VectorApi) (p : Pmu) (cpu : ℕ)
    → is_err (init_pmu configure api p).1 ≡ false
    → (((fini_pmu (init_pmu configure api p).0).cpus cpu).global_ctrl ≡ 0)
      × (((fini_pmu (init_pmu configure api p).0).cpus cpu).lvtpc
          ≡ lvt_entry (configure p.settings).pmi_vector)
lvtpc-fini_pmu configure api p cpu h = ground (
  arith,
  fini_pmu_lem (init_pmu configure api p).0 cpu,
  init_pmu-saved configure api p cpu h,
  (init_pmu_lem configure api p cpu).1 h,
)
