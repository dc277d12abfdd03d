-- ===== src/Hook/Kprobe.antt =====
-- system_hook_kprobe.c: loading and unloading the hook module over return probes.
pub mod Lifecycle
use Prim.Native.String.{String}
use pmu_min_suite.Prelude.{
  ℕ, ◌+◌, Bool, true, false, Option, none, some, ◌==◌, if◌then◌else◌, ltb, not, ℤ, pos, is_err,
  List, [], ◌∷◌, ◌≡◌,
}
use pmu_min_suite.Hook.{Shook, begin_exit}
use pmu_min_suite.Hook.Loop.{register_all, unregister_all}

-- The handlers of the module, by name.
pub data ProbeHandler : Type 0 where
  ctxs_handler ctxs_entry_handler exit_entry_handler fork_handler : ProbeHandler

-- `struct kretprobe`; a handler that is not set is NULL.
pub record Kretprobe : Type 0 where
  pub symbol_name : String
  pub handler : Option ProbeHandler
  pub entry_handler : Option ProbeHandler
  pub data_size : ℕ
  pub maxactive : ℕ

-- The kernel's side: the probes that are registered. An attempt that fails changes nothing, and
-- unregistering a probe that was just registered takes it back.
pub record KretprobeApi : Type 1 where
  pub Probes : Type 0
  pub num_possible_cpus : ℕ
  pub register_kretprobe : Probes → Kretprobe → Probes × ℤ
  pub unregister_kretprobe : Probes → Kretprobe → Probes
  pub register-fails :
      (p : Probes) (krp : Kretprobe)
      → is_err (register_kretprobe p krp).1 ≡ true
      → (register_kretprobe p krp).0 ≡ p
  pub unregister-register :
      (p : Probes) (krp : Kretprobe)
      → is_err (register_kretprobe p krp).1 ≡ false
      → unregister_kretprobe (register_kretprobe p krp).0 krp ≡ p

module _ (api : KretprobeApi) where
  open api use {Probes, num_possible_cpus, register_kretprobe, unregister_kretprobe}

  abbrev pub krp_ctxs : Kretprobe
  krp_ctxs = record {
    symbol_name = "finish_task_switch";
    handler = some ctxs_handler;
    entry_handler = some ctxs_entry_handler;
    data_size = 8;
    maxactive = num_possible_cpus + 1;
  }

  abbrev pub krp_exit : Kretprobe
  krp_exit = record {
    symbol_name = "do_exit";
    handler = none;
    entry_handler = some exit_entry_handler;
    data_size = 0;
    maxactive = num_possible_cpus + 1;
  }

  abbrev pub krp_fork : Kretprobe
  krp_fork = record {
    symbol_name = "_do_fork";
    handler = some fork_handler;
    entry_handler = none;
    data_size = 0;
    maxactive = num_possible_cpus + 1;
  }

  abbrev pub unregister : Probes → Kretprobe → Option Probes
  unregister p krp = some (unregister_kretprobe p krp)

  unfoldable pub init_kprobes : Probes → Option (Probes × ℤ)
  init_kprobes p =
      register_all register_kretprobe unregister p (krp_ctxs ∷ krp_exit ∷ krp_fork ∷ [])

  pub fini_kprobes : Probes → Option Probes
  fini_kprobes p =
      unregister_all register_kretprobe unregister p (krp_fork ∷ krp_exit ∷ krp_ctxs ∷ [])

  -- The state of the hook module.
  pub record Module : Type 0 where
    pub probes : Probes
    pub shook : Shook

  module _ (tracker_init : Shook → Shook × ℤ) (tracker_fini : Shook → Shook) where
    -- From the call of `tracker_init` on.
    pub init_tracker : Module → Option (Module × ℤ)
    init_tracker m =
        let (shook', err) = tracker_init m.shook in
        if is_err err
        then elim (fini_kprobes m.probes) [
          | none ↦ none
          | some probes' ↦ some (record { probes = probes'; shook = shook' }, err)
        ]
        else some (record m { shook = record shook' { shook_initialized = true } }, pos 0)

    pub switch_hook_module_init : Module → Option (Module × ℤ)
    switch_hook_module_init m = elim (init_kprobes m.probes) [
      | none ↦ none
      | some (probes', err) ↦
          if is_err err
          then some (record m { probes = probes' }, err)
          else init_tracker (record m { probes = probes' })
    ]

    -- What follows the grace period.
    pub end_exit : Module → Option Module
    end_exit m = elim (fini_kprobes m.probes) [
      | none ↦ none
      | some probes' ↦ some (record {
        probes = probes';
        shook = record (tracker_fini m.shook) { shook_initialized = false };
      })
    ]

    -- `none` also stands for a grace period that has not ended: a handler is in use.
    pub switch_hook_module_exit : Module → Option Module
    switch_hook_module_exit m =
        if not m.shook.shook_initialized
        then some m
        else if m.shook.unmounting == 0
        then some m
        else let begun = begin_exit m.shook in
          if ltb 1 begun.usage then none else end_exit (record m { shook = begun })
