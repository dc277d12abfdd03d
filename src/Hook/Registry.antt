-- ===== src/Hook/Registry.antt =====
-- hooks.c: the list of hooks, and their probes on the kernel's tracepoints.
pub mod Laws
use Prim.Native.String.{String}
use text.Mathlib.Text.{◌==◌ as str_eq}
use pmu_min_suite.Prelude.{
  ℕ, ◌≡◌, Bool, true, false, ◌&&◌, Option, none, some, ◌==◌, if◌then◌else◌, ℤ, pos, enomem, einval,
  enxio, is_err, List, [], ◌∷◌,
}
use pmu_min_suite.Hook.{
  HookType, sched_in, sched_out, proc_exec, proc_exit, proc_fork, proc_free, on_attach, on_detach,
  same_type,
}

-- A tracepoint of the kernel: its address and its name.
pub record Tracepoint : Type 0 where
  pub addr : ℕ
  pub name : String

-- The kernel's side: the probes on its tracepoints. An attempt to register one that fails changes
-- nothing, and unregistering a probe that was just registered takes it back.
pub record TracepointApi : Type 1 where
  pub Probes : Type 0
  pub tracepoints : List Tracepoint
  pub probe_register : Probes → ℕ → ℕ → Probes × ℤ
  pub probe_unregister : Probes → ℕ → ℕ → Probes
  pub register-fails :
      (p : Probes) (tp func : ℕ)
      → is_err (probe_register p tp func).1 ≡ true
      → (probe_register p tp func).0 ≡ p
  pub unregister-register :
      (p : Probes) (tp func : ℕ)
      → is_err (probe_register p tp func).1 ≡ false
      → probe_unregister (probe_register p tp func).0 tp func ≡ p

-- `struct hook`. A NULL `tp` is `none`.
pub record Hook : Type 0 where
  pub name : String
  pub func : ℕ
  pub type : HookType
  pub tp : Option ℕ

-- What `kmalloc` gives: nothing, or memory whose `tp` field holds what was there before.
pub data Kmalloc : Type 0 where
  failed : Kmalloc
  memory : Option ℕ → Kmalloc

unfoldable pub get_tp_name : HookType → String
get_tp_name sched_in = "sched_switch"
get_tp_name proc_exec = "sched_process_exec"
get_tp_name proc_exit = "sched_process_exit"
get_tp_name proc_fork = "sched_process_fork"
get_tp_name proc_free = "sched_process_free"
get_tp_name _ = ""

unfoldable pub lookup_tracepoint : Tracepoint → Hook → Hook
lookup_tracepoint tp hook =
    if str_eq hook.name tp.name then record hook { tp = some tp.addr } else hook

-- `for_each_kernel_tracepoint(lookup_tracepoint, hook)`
unfoldable pub lookup_all : List Tracepoint → Hook → Hook
lookup_all [] hook = hook
lookup_all (tp ∷ tps) hook = lookup_all tps (lookup_tracepoint tp hook)

module _ (api : TracepointApi) where
  open api use {Probes, tracepoints, probe_register, probe_unregister}

  pub record Registry : Type 0 where
    pub hooks_list : List Hook
    pub probes : Probes

  -- From the test of `hook->tp` on.
  unfoldable pub add_hook : Registry → Hook → Registry × ℤ
  add_hook s hook = elim hook.tp [
    | none ↦ (s, enxio)
    | some tp ↦
        let (probes', err) = probe_register s.probes tp hook.func in
        if is_err err
        then (record s { probes = probes' }, enxio)
        else (record { hooks_list = hook ∷ s.hooks_list; probes = probes' }, pos 0)
  ]

  unfoldable pub register_hook : Kmalloc → Registry → HookType → ℕ → Registry × ℤ
  register_hook mem s type func = if func == 0 then (s, einval) else elim mem [
    | failed ↦ (s, enomem)
    | memory junk ↦ add_hook s (
        lookup_all tracepoints
          (record { name = get_tp_name type; func = func; type = type; tp = junk }))
  ]

  -- The loop of `unregister_hook` stops at the first hook with this type and function.
  unfoldable pub find_hook : HookType → ℕ → List Hook → Option Hook
  find_hook type func [] = none
  find_hook type func (cur ∷ hooks) =
      if same_type cur.type type && cur.func == func then some cur else find_hook type func hooks

  unfoldable pub remove_hook : HookType → ℕ → List Hook → List Hook
  remove_hook type func [] = []
  remove_hook type func (cur ∷ hooks) =
      if same_type cur.type type && cur.func == func
      then hooks
      else cur ∷ remove_hook type func hooks

  -- Without such a hook the loop ends at the head of the list, which is no `struct hook`: `none`.
  -- A hook in the list has a tracepoint, since `add_hook` puts in no other.
  unfoldable pub unregister_hook : Registry → HookType → ℕ → Option Registry
  unregister_hook s type func = elim (find_hook type func s.hooks_list) [
    | none ↦ none
    | some found ↦ elim found.tp [
      | none ↦ none
      | some tp ↦ some (record {
        hooks_list = remove_hook type func s.hooks_list;
        probes = probe_unregister s.probes tp found.func;
      })
    ]
  ]
