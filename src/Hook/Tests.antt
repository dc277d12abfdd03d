-- ===== src/Hook/Tests.antt =====
-- The theorems on the hook module at concrete inputs.
use pmu_min_suite.Prelude.{
  ℕ, ◌≡◌, refl, ◌==◌, true, false, none, some, List, [], ◌∷◌, arith, ℤ, pos, is_err, enxio,
  if◌then◌else◌,
}
use pmu_min_suite.Hook.{
  HookType, sched_in, proc_fork, proc_exit, proc_free, Shook, loaded, set_shook_callback,
  switch_hook_set_state_enable, switch_hook_set_system_wide_mode, register_hooks, unregister_hooks,
}
use pmu_min_suite.Hook.Registry.{
  TracepointApi, Kmalloc, memory, Registry, register_hook, add_hook, lookup_all, lookup_tracepoint,
  get_tp_name, find_hook, remove_hook, unregister_hook,
}
use pmu_min_suite.Hook.Registry.Laws.{unregister_hook-register_hook, last_named}
use pmu_min_suite.Hook.Loop.{
  register_all, register_from, register_each, first_error, unregister_all,
}
use pmu_min_suite.Hook.Tracep
use pmu_min_suite.Hook.Tracep.Lifecycle.{system_hooks_init_lem}

-- Probes as a list; a function at address 13 is refused.
abbrev pub refuse_13 : List (ℕ × ℕ) → ℕ → ℕ → List (ℕ × ℕ) × ℤ
refuse_13 p tp func = if func == 13 then (p, enxio) else ((tp, func) ∷ p, pos 0)

abbrev pub drop_first : List (ℕ × ℕ) → ℕ → ℕ → List (ℕ × ℕ)
drop_first [] tp func = []
drop_first (x ∷ p) tp func = p

pub refuse_13-fails :
    (p : List (ℕ × ℕ)) (tp func : ℕ)
    → is_err (refuse_13 p tp func).1 ≡ true
    → (refuse_13 p tp func).0 ≡ p
refuse_13-fails p tp func h = ground arith

pub drop_first-refuse_13 :
    (p : List (ℕ × ℕ)) (tp func : ℕ)
    → is_err (refuse_13 p tp func).1 ≡ false
    → drop_first (refuse_13 p tp func).0 tp func ≡ p
drop_first-refuse_13 p tp func h = ground arith

abbrev pub kernel : TracepointApi
kernel = record {
  Probes = List (ℕ × ℕ);
  tracepoints =
      record { addr = 100; name = "sched_switch" }
      ∷ record { addr = 101; name = "sched_process_fork" }
      ∷ record { addr = 102; name = "sched_process_exit" }
      ∷ [];
  probe_register = refuse_13;
  probe_unregister = drop_first;
  register-fails = refuse_13-fails;
  unregister-register = drop_first-refuse_13;
}

abbrev pub empty : Registry kernel
empty = record { hooks_list = []; probes = [] }

abbrev pub cleared : HookType → Kmalloc
cleared t = memory none

abbrev pub wrappers : Tracep.Wrappers
wrappers = record { whook_sched_in = 11; whook_proc_fork = 12; whook_proc_exit = 14 }

-- The registration of a hook and the loops over the table, to be run.
program : Unit {0}
unfolding register_hook add_hook lookup_all lookup_tracepoint get_tp_name unregister_hook find_hook
    remove_hook register_all register_from register_each first_error unregister_all
    Tracep.system_hooks_init Tracep.system_hooks_fini last_named
program = tt

unregister_hook-register_hook_example :
    unregister_hook kernel (register_hook kernel (memory none) empty proc_fork 12).0 proc_fork 12
    ≡ some empty
unfolding program
unregister_hook-register_hook_example =
    unregister_hook-register_hook kernel (memory none) empty proc_fork 12 refl

-- Without a tracepoint of the name the pointer that the memory held is taken.
stale_tracepoint : (register_hook kernel (memory (some 77)) empty proc_free 12).1 ≡ pos 0
unfolding program
stale_tracepoint = refl

abbrev refused_wrappers : Tracep.Wrappers
refused_wrappers = record { whook_sched_in = 11; whook_proc_fork = 13; whook_proc_exit = 14 }

system_hooks_init_runs :
    Tracep.system_hooks_init kernel cleared refused_wrappers empty ≡ some (empty, enxio)
unfolding program
system_hooks_init_runs = refl

abbrev pub loaded_registry : Registry kernel
loaded_registry = record {
  hooks_list =
      record { name = "sched_process_exit"; func = 14; type = proc_exit; tp = some 102 }
      ∷ record { name = "sched_process_fork"; func = 12; type = proc_fork; tp = some 101 }
      ∷ record { name = "sched_switch"; func = 11; type = sched_in; tp = some 100 }
      ∷ [];
  probes = (102, 14) ∷ (101, 12) ∷ (100, 11) ∷ [];
}

loads : Tracep.system_hooks_init kernel cleared wrappers empty ≡ some (loaded_registry, pos 0)
unfolding program
loads = refl

system_hooks_init_lem_example : Tracep.system_hooks_init kernel cleared wrappers empty ≡ (
    let err =
      first_error
        (Tracep.register kernel cleared wrappers)
        (Tracep.unregister kernel cleared wrappers)
        empty
        (Tracep.hook_funcs wrappers) in
    if is_err err
    then some (empty, err)
    else some (
      register_each
          (Tracep.register kernel cleared wrappers)
          (Tracep.unregister kernel cleared wrappers)
          empty
          (Tracep.hook_funcs wrappers),
      pos 0,
    ))
system_hooks_init_lem_example = system_hooks_init_lem kernel cleared wrappers empty

abbrev pub tracker_init : Shook → Shook × ℤ
tracker_init s = (register_hooks 1 2 3 s, pos 0)

abbrev running_shook : Shook
running_shook = record loaded { shook_enabled = true; shook_initialized = true }

fini_keeps : (k : Shook) → (unregister_hooks k).shook_enabled ≡ k.shook_enabled
unfolding unregister_hooks set_shook_callback
fini_keeps k = refl

abbrev pub switched_on : Shook → Shook
switched_on s = record s { shook_initialized = true; system_wide_mode = true; shook_enabled = true }

pub module_loads :
    Tracep.switch_hook_module_init kernel cleared wrappers tracker_init unregister_hooks
      (record { registry = empty; shook = loaded })
    ≡ some
        (record { registry = loaded_registry; shook = switched_on (tracker_init loaded).0 }, pos 0)
unfolding program Tracep.switch_hook_module_init Tracep.init_tracker switch_hook_set_state_enable
    switch_hook_set_system_wide_mode
module_loads = refl
