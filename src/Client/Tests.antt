-- ===== src/Client/Tests.antt =====
-- The client module on concrete inputs.
use pmu_min_suite.Prelude.{
  ℕ, ◌+◌, ◌*◌, ◌^◌, ◌≡◌, refl, Bool, true, false, Option, none, some, List, [], ◌∷◌, arith, ℤ, pos,
  einval, is_err, ◌==◌, if◌then◌else◌, bit_and,
}
use pmu_min_suite.Prelude.Lists.{replicate}
use pmu_min_suite.Client.Pmu
use pmu_min_suite.Client.Pmu.{
  Settings, Registers, PmiVector, nmi, irq, lvt_entry, get_machine_configuration, fixed_ctrl_loop,
  enable_pmcs_global, init_pmu_local, init_fixed, pmc_trim, fixed_pmcs_to_bits_mask,
}
use pmu_min_suite.Client.Params.{readable_pmcs_set, reset_period_set, thread_filter_set}
use pmu_min_suite.Client.Pmi.{PmcsData, ProcData, Machine, pmi_handler}
use pmu_min_suite.Client.Pmi.Period.{armed}
use pmu_min_suite.Client.Pmi.Handler.{IsRead, pmi_handler_lem, pmi_handler-readable_pmcs_set}
use pmu_min_suite.Client.Vector
use pmu_min_suite.Client.Vector.{VectorApi, init_pmu, fini_pmu}
use pmu_min_suite.Client.Vector.Restore.{lvtpc-fini_pmu}
use pmu_min_suite.Client.Buffering
use pmu_min_suite.Client.Buffering.{Bcpu, alloc, buffering_static_init, buffering_static_fini}

abbrev settings : Settings
settings = record {
  machine_info_read = false;
  gbl_fixed_ctrl = 0;
  gbl_fixed_pmc_pmi = 1;
  gbl_nr_pmc_fixed = 0;
  gbl_nr_pmc_general = 0;
  readable_pmcs = pos 0;
  reset_period = 2 ^ 28;
  pmi_vector = irq;
  thread_filter = false;
}

-- Seven events, four general counters and three fixed ones.
abbrev configure : Settings → Settings
configure s = get_machine_configuration 0x07300403 0x603 s

abbrev configured : Settings
configured = record settings {
  machine_info_read = true;
  gbl_nr_pmc_fixed = 3;
  gbl_nr_pmc_general = 4;
}

configure_settings : configure settings ≡ configured
unfolding get_machine_configuration
configure_settings = refl

fixed_ctrl_loop_three : fixed_ctrl_loop 1 0 3 ≡ 0x3b3
unfolding fixed_ctrl_loop
fixed_ctrl_loop_three = refl

-- A parser of one digit, or of a number from one byte.
abbrev kstrtoint : List ℕ → ℤ × ℤ
kstrtoint [] = (einval, pos 0)
kstrtoint (x ∷ xs) = (pos 0, pos x)

abbrev kstrtobool : List ℕ → ℤ × Bool
kstrtobool [] = (einval, false)
kstrtobool (x ∷ xs) = (pos 0, x == 49)

thread_filter_set_one :
    thread_filter_set kstrtobool settings (49 ∷ [])
    ≡ (record settings { thread_filter = true }, pos 0)
unfolding thread_filter_set
thread_filter_set_one = refl

reset_period_set_low :
    reset_period_set configure kstrtoint settings (11 ∷ []) ≡ (configured, einval)
unfolding reset_period_set get_machine_configuration
reset_period_set_low = refl

abbrev pub registers : Registers
registers = record {
  lvtpc = 0x10000;
  eois = 0;
  global_status = 2 ^ 33;
  global_ovf_ctrl = 0;
  global_ctrl = 0;
  debugctl = 0;
  fixed_ctr_ctrl = 0;
  fixed_ctr = λ i. 100 + i;
  general_ctr = λ i. 200 + i;
}

abbrev pub proc_data : ProcData
proc_data = record {
  clist = 4096;
  pmcs = record { fixed = replicate 3 0; general = replicate 8 0 };
}

-- The world is the list of the samples.
abbrev machine : Machine (List (ℕ × PmcsData))
machine = record { regs = registers; pmi_counter = 0; proc_data = some proc_data; world = [] }

abbrev write_sample : ℕ → PmcsData → List (ℕ × PmcsData) → List (ℕ × PmcsData)
write_sample clist d w = (clist, d) ∷ w

abbrev pub reading : Settings
reading = record configured { readable_pmcs = pos 4 }

pmi_handler_lem_example :
    (m' : Machine (List (ℕ × PmcsData))) × (d : PmcsData) × (pmi_handler write_sample reading
        machine
      ≡ some (m', 1))
    × (m'.world ≡ (4096, d) ∷ [])
    × IsRead (λ i. 100 + i) 3 (replicate 3 0) d.fixed
    × IsRead (λ pmc. 200 + bit_and pmc 1) 4 (replicate 8 0) d.general
    × (m'.regs.fixed_ctr 1 ≡ armed (2 ^ 28))
    × (m'.regs.global_ovf_ctrl ≡ 2 ^ 33)
pmi_handler_lem_example =
    pmi_handler_lem write_sample reading machine proc_data refl (omega arith) (omega arith)
      (omega arith)

pmi_handler-readable_pmcs_set_example :
    ((readable_pmcs_set configure kstrtoint settings (9 ∷ [])).1 ≡ pos 0)
    × (pmi_handler write_sample (readable_pmcs_set configure kstrtoint settings (9 ∷ [])).0 machine
        ≡ none)
pmi_handler-readable_pmcs_set_example =
    pmi_handler-readable_pmcs_set write_sample configure kstrtoint settings (9 ∷ []) 9 machine
      proc_data refl refl (omega arith) (omega arith)

abbrev pub api : VectorApi
api = record { register_nmi_handler = pos 0; request_fast_irq = pos 239 }

abbrev pub pmu : Vector.Pmu
pmu = record {
  settings = configured;
  cpus = λ cpu. registers;
  pcpu_lvt_bkp = λ cpu. 0;
  nmi_registered = false;
  irq_registered = false;
}

init_pmu_ok : is_err (init_pmu (λ s. s) api pmu).1 ≡ false
unfolding init_pmu Pmu.pmu_global_init Vector.pmi_init
init_pmu_ok = refl

lvtpc-fini_pmu_example :
    (((fini_pmu (init_pmu (λ s. s) api pmu).0).cpus 2).global_ctrl ≡ 0)
    × (((fini_pmu (init_pmu (λ s. s) api pmu).0).cpus 2).lvtpc ≡ 239)
lvtpc-fini_pmu_example = lvtpc-fini_pmu (λ s. s) api pmu 2 init_pmu_ok

abbrev pub no_clists : Bcpu
no_clists = record { pcpu_clist = λ cpu. none; live = λ a. false }

-- Memory for every processor, or for those before the third.
abbrev pub clist_of : ℕ → ℕ → ℕ → Option ℕ
clist_of cpu entries size = some (cpu * 8 + 8)

abbrev scarce : ℕ → ℕ → ℕ → Option ℕ
scarce cpu entries size = if cpu == 2 then none else some (cpu * 8 + 8)

buffering_static_fini_two :
    (buffering_static_fini 2 (buffering_static_init clist_of 88 2 no_clists).0).live 16 ≡ false
unfolding buffering_static_fini buffering_static_init Buffering.fill
buffering_static_fini_two = refl
