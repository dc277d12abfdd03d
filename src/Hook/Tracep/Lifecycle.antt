-- ===== src/Hook/Tracep/Lifecycle.antt =====
-- Loading and unloading in system_hook_tracep.c, with their error paths.
use pmu_min_suite.Prelude.{
  ℕ, ◌≤◌, ◌≡◌, ◌≢◌, refl, true, false, some, if◌then◌else◌, ℤ, pos, is_err, List, ◌∷◌, arith, ap,
  ◌∙◌,
}
use pmu_min_suite.Hook.{HookType, sched_in, proc_fork, proc_exit, Shook, begin_exit}
use pmu_min_suite.Hook.Loop.{unregister_all, register_each, first_error, register_all_lem}
use pmu_min_suite.Hook.Registry.{
  TracepointApi, Kmalloc, Hook, Registry, find_hook, remove_hook, unregister_hook,
}
use pmu_min_suite.Hook.Registry.Laws.{
  new_hook, register_hook-hooks_list, register_hook-fails, unregister_hook-register_hook,
}
use pmu_min_suite.Hook.Tracep.{
  HookFunc, Wrappers, hook_funcs, register, unregister, system_hooks_init, system_hooks_fini,
  Module, end_exit, switch_hook_module_exit,
}

module _ (api : TracepointApi) (kmalloc : HookType → Kmalloc) (w : Wrappers) where
  -- `system_hooks_init` registers all three hooks, or leaves the registry as it was and returns
  -- the error of the first registration that failed; it unregisters nothing that is not there.
  pub system_hooks_init_lem :
      (s : Registry api)
      → system_hooks_init api kmalloc w s ≡ (
          let err =
            first_error (register api kmalloc w) (unregister api kmalloc w) s (hook_funcs w) in
          if is_err err
          then some (s, err)
          else some (
            register_each (register api kmalloc w) (unregister api kmalloc w) s (hook_funcs w),
            pos 0,
          ))
  unfolding system_hooks_init
  system_hooks_init_lem s =
      register_all_lem (register api kmalloc w) (unregister api kmalloc w)
        (λ r h. register_hook-fails api (kmalloc h.type) r h.type h.func)
        (λ r h. unregister_hook-register_hook api (kmalloc h.type) r h.type h.func) s (hook_funcs w)

  three_hooks :
      (old : List Hook) (p : api.Probes) (a b c : ℕ)
      → (r : Registry api) × (system_hooks_fini api kmalloc w (record {
        hooks_list =
            new_hook api c proc_exit w.whook_proc_exit
            ∷ new_hook api b proc_fork w.whook_proc_fork
            ∷ new_hook api a sched_in w.whook_sched_in
            ∷ old;
        probes = p;
      })
          ≡ some r)
        × (r.hooks_list ≡ old)
  unfolding system_hooks_fini unregister_all unregister_hook find_hook remove_hook
  three_hooks old p a b c = (
    record {
      hooks_list = old;
      probes =
          api.probe_unregister
            (api.probe_unregister (api.probe_unregister p a w.whook_sched_in) b w.whook_proc_fork) c
            w.whook_proc_exit;
    },
    ground arith,
    refl,
  )

  -- The state after `register_each`, one call at a time.
  abbrev after : Registry api → HookFunc → Registry api
  after s h = (register api kmalloc w s h).0

  abbrev f0 : HookFunc
  f0 = record { func = w.whook_sched_in; type = sched_in }

  abbrev f1 : HookFunc
  f1 = record { func = w.whook_proc_fork; type = proc_fork }

  abbrev f2 : HookFunc
  f2 = record { func = w.whook_proc_exit; type = proc_exit }

  all_registered :
      (s : Registry api)
      → is_err (first_error (register api kmalloc w) (unregister api kmalloc w) s (hook_funcs w))
        ≡ false
      → (is_err (register api kmalloc w s f0).1 ≡ false)
        × (is_err (register api kmalloc w (after s f0) f1).1 ≡ false)
        × (is_err (register api kmalloc w (after (after s f0) f1) f2).1 ≡ false)
  unfolding first_error
  all_registered s h = ground arith

  abbrev all_hooks : Registry api → Registry api
  all_hooks s = after (after (after s f0) f1) f2

  hooks_after :
      (s : Registry api)
      → is_err (first_error (register api kmalloc w) (unregister api kmalloc w) s (hook_funcs w))
        ≡ false
      → (a : ℕ) × (b : ℕ) × (c : ℕ) × ((all_hooks s).hooks_list
          ≡ new_hook api c proc_exit w.whook_proc_exit
            ∷ new_hook api b proc_fork w.whook_proc_fork
            ∷ new_hook api a sched_in w.whook_sched_in
            ∷ s.hooks_list)
  hooks_after s h =
      let (e0, e1, e2) = all_registered s h in
      let (a, p) = register_hook-hooks_list api (kmalloc sched_in) s sched_in w.whook_sched_in e0 in
      let (b, q) =
        register_hook-hooks_list api (kmalloc proc_fork) (after s f0) proc_fork w.whook_proc_fork
          e1 in
      let (c, r) =
        register_hook-hooks_list api (kmalloc proc_exit) (after (after s f0) f1) proc_exit
          w.whook_proc_exit e2 in
      (
        a,
        b,
        c,
        r
            ∙ ap (λ l. new_hook api c proc_exit w.whook_proc_exit ∷ l)
                (q ∙ ap (λ l. new_hook api b proc_fork w.whook_proc_fork ∷ l) p),
      )

  each_is_all :
      (s : Registry api)
      → register_each (register api kmalloc w) (unregister api kmalloc w) s (hook_funcs w)
        ≡ all_hooks s
  unfolding register_each
  each_is_all s = refl

  success :
      (s r : Registry api)
      → system_hooks_init api kmalloc w s ≡ some (r, pos 0)
      → (is_err (first_error (register api kmalloc w) (unregister api kmalloc w) s (hook_funcs w))
          ≡ false)
        × (r ≡ all_hooks s)
  success s r h = ground (arith, system_hooks_init_lem s, each_is_all s)

  with_list :
      (r : Registry api) (l : List Hook)
      → r.hooks_list ≡ l
      → r ≡ record { hooks_list = l; probes = r.probes }
  with_list r l e = ap (λ t. record { hooks_list = t; probes = r.probes }) e

  loading_error : Registry api → ℤ
  loading_error s = first_error (register api kmalloc w) (unregister api kmalloc w) s (hook_funcs w)

  -- After a loading of the hooks that succeeded, unloading them is defined, although it goes through
  -- the table in the same order, and gives back the list of hooks of before.
  system_hooks_fini-init :
      (s r : Registry api)
      → system_hooks_init api kmalloc w s ≡ some (r, pos 0)
      → (r' : Registry api) × (system_hooks_fini api kmalloc w r ≡ some r')
        × (r'.hooks_list ≡ s.hooks_list)
  system_hooks_fini-init s r h =
      let (good, e) = success s r h in
      let (a, b, c, l) = hooks_after s good in
      let (r', d, k) = three_hooks s.hooks_list r.probes a b c in
      (
        r',
        ap (system_hooks_fini api kmalloc w)
              (with_list r _ (ap (λ (t : Registry api). t.hooks_list) e ∙ l))
            ∙ d,
        k,
      )

  module _ (tracker_init : Shook → Shook × ℤ) (tracker_fini : Shook → Shook) where
    -- Unloading a module whose hooks were registered from the registry `s` gives back the list of
    -- hooks of `s` and leaves the module disabled and not initialised, if it was initialised, no
    -- unloading has wrapped `unmounting` to 0, no handler is in use, and `tracker_fini` does not
    -- enable the module.
    pub hooks_list-switch_hook_module_exit :
        (s : Registry api) (m : Module api)
        → system_hooks_init api kmalloc w s ≡ some (m.registry, pos 0)
        → m.shook.shook_initialized ≡ true
        → m.shook.unmounting ≢ 0
        → m.shook.usage ≤ 1
        → ((k : Shook) → (tracker_fini k).shook_enabled ≡ k.shook_enabled)
        → (m' : Module api) × (switch_hook_module_exit api kmalloc w tracker_init tracker_fini m
            ≡ some m')
          × (m'.registry.hooks_list ≡ s.hooks_list)
          × (m'.shook.shook_enabled ≡ false)
          × (m'.shook.shook_initialized ≡ false)
    unfolding switch_hook_module_exit end_exit begin_exit
    hooks_list-switch_hook_module_exit s m h i u g k =
        let (r', d, l) = system_hooks_fini-init s m.registry h in
        (
          record {
            registry = r';
            shook = record (tracker_fini (begin_exit m.shook)) { shook_initialized = false };
          },
          ground arith,
          l,
          ground (arith, k (begin_exit m.shook)),
          refl,
        )
