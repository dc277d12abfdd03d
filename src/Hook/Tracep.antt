-- ===== src/Hook/Tracep.antt =====
-- system_hook_tracep.c: loading and unloading the hook module over tracepoints. The tracker is
-- given by its `tracker_init` and `tracker_fini`, which set the callbacks; `kmalloc` gives, for each
-- type, what the allocation in `register_hook` returns.
pub mod Lifecycle
use pmu_min_suite.Prelude.{
  ℕ, ◌+◌, Bool, true, false, Option, none, some, ◌==◌, if◌then◌else◌, ltb, not, ℤ, pos, is_err,
  List, [], ◌∷◌,
}
use pmu_min_suite.Hook.{
  HookType, sched_in, proc_fork, proc_exit, Shook, begin_exit, switch_hook_set_state_enable,
  switch_hook_set_system_wide_mode,
}
use pmu_min_suite.Hook.Loop.{register_all, unregister_all}
use pmu_min_suite.Hook.Registry.{TracepointApi, Kmalloc, Registry, register_hook, unregister_hook}

-- `struct hook_func`
pub record HookFunc : Type 0 where
  pub func : ℕ
  pub type : HookType

-- The addresses of `whook_sched_in`, `whook_proc_fork` and `whook_proc_exit`.
pub record Wrappers : Type 0 where
  pub whook_sched_in : ℕ
  pub whook_proc_fork : ℕ
  pub whook_proc_exit : ℕ

abbrev pub hook_funcs : Wrappers → List HookFunc
hook_funcs w =
    record { func = w.whook_sched_in; type = sched_in }
    ∷ record { func = w.whook_proc_fork; type = proc_fork }
    ∷ record { func = w.whook_proc_exit; type = proc_exit }
    ∷ []

-- The state of the hook module: the hooks of hooks.c and the switches of system_hook.c.
pub record Module (api : TracepointApi) : Type 0 where
  pub registry : Registry api
  pub shook : Shook

module _ (api : TracepointApi) (kmalloc : HookType → Kmalloc) (w : Wrappers) where
  abbrev pub register : Registry api → HookFunc → Registry api × ℤ
  register s h = register_hook api (kmalloc h.type) s h.type h.func

  abbrev pub unregister : Registry api → HookFunc → Option (Registry api)
  unregister s h = unregister_hook api s h.type h.func

  unfoldable pub system_hooks_init : Registry api → Option (Registry api × ℤ)
  system_hooks_init s = register_all register unregister s (hook_funcs w)

  unfoldable pub system_hooks_fini : Registry api → Option (Registry api)
  system_hooks_fini s = unregister_all register unregister s (hook_funcs w)

  module _ (tracker_init : Shook → Shook × ℤ) (tracker_fini : Shook → Shook) where
    -- From the call of `tracker_init` on.
    unfoldable pub init_tracker : Module api → Option (Module api × ℤ)
    init_tracker m =
        let (shook', err) = tracker_init m.shook in
        if is_err err
        then elim (system_hooks_fini m.registry) [
          | none ↦ none
          | some registry' ↦ some (record { registry = registry'; shook = shook' }, err)
        ]
        else some (
          record m {
            shook =
                switch_hook_set_state_enable
                  (switch_hook_set_system_wide_mode (record shook' { shook_initialized = true })
                    true)
                  true;
          },
          pos 0,
        )

    unfoldable pub switch_hook_module_init : Module api → Option (Module api × ℤ)
    switch_hook_module_init m = elim (system_hooks_init m.registry) [
      | none ↦ none
      | some (registry', err) ↦
          if is_err err
          then some (record m { registry = registry' }, err)
          else init_tracker (record m { registry = registry' })
    ]

    -- What follows the grace period.
    unfoldable pub end_exit : Module api → Option (Module api)
    end_exit m = elim (system_hooks_fini m.registry) [
      | none ↦ none
      | some registry' ↦ some (record {
        registry = registry';
        shook = record (tracker_fini m.shook) { shook_initialized = false };
      })
    ]

    -- `none` also stands for a grace period that has not ended: a handler is in use.
    unfoldable pub switch_hook_module_exit : Module api → Option (Module api)
    switch_hook_module_exit m =
        if not m.shook.shook_initialized
        then some m
        else if m.shook.unmounting == 0
        then some m
        else let begun = begin_exit m.shook in
          if ltb 1 begun.usage then none else end_exit (record m { shook = begun })
