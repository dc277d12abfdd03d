-- ===== src/Hook/ProbeTests.antt =====
-- The theorems on the gate, the handlers and the return probes at concrete inputs.
use pmu_min_suite.Prelude.{
  ℕ, ◌≡◌, refl, ◌⊎◌, true, false, if◌then◌else◌, ◌==◌, Option, none, some, List, [], ◌∷◌, ℤ, pos,
  is_err,
}
use pmu_min_suite.Prelude.References.{Refs}
use pmu_min_suite.Hook.{Callback, Shook, call, loaded}
use pmu_min_suite.Hook.Loop.{register_all, register_from}
use pmu_min_suite.Hook.Kprobe
use pmu_min_suite.Hook.Kprobe.{KretprobeApi, Kretprobe}
use pmu_min_suite.Hook.Kprobe.Lifecycle.{probes-switch_hook_module_init}
use pmu_min_suite.Hook.Handlers.{Args}

abbrev open_gate : Shook
open_gate = record loaded { shook_enabled = true; hook_proc_fork = call 12 }

-- The callbacks that were called, latest first.
abbrev log : Callback → Args → List (Callback × Args) → List (Callback × Args)
log f a k = (f, a) ∷ k

-- Pid 7 has its structure at 70, and its task at 71.
abbrev pid_at : ℕ → Option ℕ
pid_at pid = if pid == 7 then some 70 else none

abbrev task_at : ℕ → Option ℕ
task_at pid = if pid == 70 then some 71 else none

abbrev no_refs : Refs
no_refs = record { pids = λ a. 0; tasks = λ a. 0 }

-- Return probes as a list; every registration succeeds.
abbrev add_probe : List Kretprobe → Kretprobe → List Kretprobe × ℤ
add_probe p k = (k ∷ p, pos 0)

abbrev drop_probe : List Kretprobe → Kretprobe → List Kretprobe
drop_probe [] k = []
drop_probe (x ∷ p) k = p

never_fails :
    (p : List Kretprobe) (k : Kretprobe) → is_err (add_probe p k).1 ≡ true → (add_probe p k).0 ≡ p
never_fails p k h = cc

abbrev kernel : KretprobeApi
kernel = record {
  Probes = List Kretprobe;
  num_possible_cpus = 4;
  register_kretprobe = add_probe;
  unregister_kretprobe = drop_probe;
  register-fails = never_fails;
  unregister-register = λ p k h. refl;
}

abbrev all_probes : List Kretprobe
all_probes = Kprobe.krp_fork kernel ∷ Kprobe.krp_exit kernel ∷ Kprobe.krp_ctxs kernel ∷ []

probes_load : Kprobe.init_kprobes kernel [] ≡ some (all_probes, pos 0)
unfolding Kprobe.init_kprobes register_all register_from
probes_load = refl

abbrev tracker_init : Shook → Shook × ℤ
tracker_init s = (s, pos 0)

abbrev tracker_fini : Shook → Shook
tracker_fini s = s

probes-switch_hook_module_init_example :
    (m : Kprobe.Module kernel) × (err : ℤ) × (Kprobe.switch_hook_module_init kernel tracker_init
        tracker_fini
        (record { probes = []; shook = loaded })
      ≡ some (m, err))
    × (m.shook.shook_enabled ≡ false)
    × (((is_err err ≡ true) × (m.probes ≡ []))
        ⊎ ((err ≡ pos 0) × (m.shook.shook_initialized ≡ true)))
probes-switch_hook_module_init_example =
    probes-switch_hook_module_init kernel tracker_init tracker_fini
      (record { probes = []; shook = loaded }) (λ k. refl)
