-- ===== src/Hook/Kprobe/Lifecycle.antt =====
-- Loading and unloading in system_hook_kprobe.c, with their error paths.
use pmu_min_suite.Prelude.{
  ◌≤◌, ◌≡◌, ◌≢◌, refl, true, false, some, if◌then◌else◌, ℤ, pos, is_err, List, [], ◌∷◌, arith, ap,
  ◌⊎◌, inl, inr, Bool-cases,
}
use pmu_min_suite.Hook.{Shook, begin_exit}
use pmu_min_suite.Hook.Loop.{unregister_all, register_each, first_error, register_all_lem}
use pmu_min_suite.Hook.Kprobe.{
  Kretprobe, KretprobeApi, krp_ctxs, krp_exit, krp_fork, unregister, init_kprobes, fini_kprobes,
  Module, init_tracker, switch_hook_module_init, end_exit, switch_hook_module_exit,
}

module _ (api : KretprobeApi) where
  open api use {
    Probes, register_kretprobe, unregister_kretprobe, register-fails, unregister-register,
  }

  abbrev krps : List Kretprobe
  krps = krp_ctxs api ∷ krp_exit api ∷ krp_fork api ∷ []

  abbrev loading_error : Probes → ℤ
  loading_error p = first_error register_kretprobe (unregister api) p krps

  abbrev all_probes : Probes → Probes
  all_probes p = register_each register_kretprobe (unregister api) p krps

  init_kprobes_lem :
      (p : Probes)
      → init_kprobes api p ≡ (
          if is_err (loading_error p)
          then some (p, loading_error p)
          else some (all_probes p, pos 0))
  unfolding init_kprobes
  init_kprobes_lem p =
      register_all_lem register_kretprobe (unregister api) register-fails
        (λ q krp e. ap some (unregister-register q krp e)) p krps

  fini-all_probes :
      (p : Probes) → is_err (loading_error p) ≡ false → fini_kprobes api (all_probes p) ≡ some p
  unfolding fini_kprobes unregister_all register_each first_error
  fini-all_probes p h =
      let p1 = (register_kretprobe p (krp_ctxs api)).0 in
      let p2 = (register_kretprobe p1 (krp_exit api)).0 in
      ground (
        arith,
        unregister-register p (krp_ctxs api),
        unregister-register p1 (krp_exit api),
        unregister-register p2 (krp_fork api),
      )

  -- `fini_kprobes` takes back exactly what a successful `init_kprobes` registered.
  fini_kprobes-init_kprobes :
      (p q : Probes) → init_kprobes api p ≡ some (q, pos 0) → fini_kprobes api q ≡ some p
  fini_kprobes-init_kprobes p q h = ground (arith, init_kprobes_lem p, fini-all_probes p)

  module _ (tracker_init : Shook → Shook × ℤ) (tracker_fini : Shook → Shook) where
    -- Loading over probes either fails with an error and leaves the probes and the enable switch as
    -- they were, or returns 0 with the module initialised and the enable switch as it was; in both
    -- cases no undefined step is taken.
    pub probes-switch_hook_module_init :
        (m : Module api)
        → ((k : Shook) → (tracker_init k).0.shook_enabled ≡ k.shook_enabled)
        → (m' : Module api) × (err : ℤ) × (switch_hook_module_init api tracker_init tracker_fini m
            ≡ some (m', err))
          × (m'.shook.shook_enabled ≡ m.shook.shook_enabled)
          × (((is_err err ≡ true) × (m'.probes ≡ m.probes))
              ⊎ ((err ≡ pos 0) × (m'.shook.shook_initialized ≡ true)))
    unfolding switch_hook_module_init init_tracker
    probes-switch_hook_module_init m k = elim (Bool-cases (is_err (loading_error m.probes))) [
      | inl bad ↦ (
        m,
        loading_error m.probes,
        ground (arith, init_kprobes_lem m.probes),
        refl,
        inl (bad, refl),
      )
      | inr good ↦ elim (Bool-cases (is_err (tracker_init m.shook).1)) [
        | inl refused ↦ (
          record m { shook = (tracker_init m.shook).0 },
          (tracker_init m.shook).1,
          ground (arith, init_kprobes_lem m.probes, fini-all_probes m.probes good),
          k m.shook,
          inl (refused, refl),
        )
        | inr ready ↦ (
          record {
            probes = all_probes m.probes;
            shook = record (tracker_init m.shook).0 { shook_initialized = true };
          },
          pos 0,
          ground (arith, init_kprobes_lem m.probes),
          k m.shook,
          inr (refl, refl),
        )
      ]
    ]

    -- Unloading gives back the probes of before the loading and leaves the module disabled and not
    -- initialised, if it was initialised, no unloading has wrapped `unmounting` to 0, no handler is
    -- in use, and `tracker_fini` does not enable the module.
    probes-switch_hook_module_exit :
        (p : Probes) (m : Module api)
        → init_kprobes api p ≡ some (m.probes, pos 0)
        → m.shook.shook_initialized ≡ true
        → m.shook.unmounting ≢ 0
        → m.shook.usage ≤ 1
        → ((k : Shook) → (tracker_fini k).shook_enabled ≡ k.shook_enabled)
        → (m' : Module api) × (switch_hook_module_exit api tracker_init tracker_fini m ≡ some m')
          × (m'.probes ≡ p)
          × (m'.shook.shook_enabled ≡ false)
          × (m'.shook.shook_initialized ≡ false)
    unfolding switch_hook_module_exit end_exit begin_exit
    probes-switch_hook_module_exit p m h i u g k = (
      record {
        probes = p;
        shook = record (tracker_fini (begin_exit m.shook)) { shook_initialized = false };
      },
      ground (arith, fini_kprobes-init_kprobes p m.probes h),
      refl,
      ground (arith, k (begin_exit m.shook)),
      refl,
    )
