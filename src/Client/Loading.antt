-- ===== src/Client/Loading.antt =====
-- client/client_module.c and client/device/proc.c: loading and unloading the client module. The
-- linked file of client/buffering/ is given by its two functions, the module's callbacks by their
-- addresses, and `proc_mkdir` and `proc_create` by the pointer that they return or NULL.
pub mod WayBack
use pmu_min_suite.Prelude.{
  ℕ, Bool, true, false, Option, none, some, if◌then◌else◌, ℤ, pos, is_err, is_some,
}
use pmu_min_suite.Hook.{
  Shook, sched_in, on_attach, on_detach, set_shook_callback, switch_hook_set_state_enable,
  switch_hook_set_system_wide_mode,
}
use pmu_min_suite.Client.Pmu.{Settings}
use pmu_min_suite.Client.Vector.{VectorApi, Pmu, init_pmu, fini_pmu}

pub record ClientHooks : Type 0 where
  pub client_hook_on_attach : ℕ
  pub client_hook_on_detach : ℕ
  pub client_hook_sched_in : ℕ

unfoldable pub init_shook : ClientHooks → Shook → Shook × ℤ
init_shook h s = (
  switch_hook_set_state_enable
      (switch_hook_set_system_wide_mode
        (set_shook_callback
          (set_shook_callback (set_shook_callback s (some h.client_hook_on_attach) on_attach)
            (some h.client_hook_on_detach) on_detach)
          (some h.client_hook_sched_in) sched_in)
        true)
      true,
  pos 0,
)

unfoldable pub fini_shook : Shook → Shook
fini_shook s =
    set_shook_callback
      (set_shook_callback
        (set_shook_callback
          (switch_hook_set_system_wide_mode (switch_hook_set_state_enable s false) false) none
          sched_in)
        none on_attach)
      none on_detach

-- The pointer `root_pd_dir`, and whether the directory is there.
pub record Proc : Type 0 where
  pub root_pd_dir : Option ℕ
  pub dir_exists : Bool

pub record ProcApi : Type 0 where
  pub proc_mkdir : Option ℕ
  pub proc_create : Option ℕ

abbrev pub register_proc_processes : ProcApi → ℤ
register_proc_processes api = if is_some api.proc_create then pos 0 else pos 1

unfoldable pub init_proc : ProcApi → Proc → Proc × ℤ
init_proc api p = elim api.proc_mkdir [
  | none ↦ (record p { root_pd_dir = none }, pos 0)
  | some dir ↦
      if is_err (register_proc_processes api)
      then (record { root_pd_dir = some dir; dir_exists = false }, register_proc_processes api)
      else (record { root_pd_dir = some dir; dir_exists = true }, pos 0)
]

-- `proc_remove` of NULL does nothing.
unfoldable pub fini_proc : Proc → Proc
fini_proc p = if is_some p.root_pd_dir then record p { dir_exists = false } else p

pub record Client (B : Type 0) : Type 0 where
  pub buffers : B
  pub shook : Shook
  pub pmu : Pmu
  pub proc : Proc

module _ {B : Type 0} (buffering_static_init : B → B × ℤ) (buffering_static_fini : B → B)
    (hooks : ClientHooks) (configure : Settings → Settings) (vector : VectorApi)
    (proc_api : ProcApi) where
  -- The labels of the way back.
  abbrev pub no_shook : Client B → Client B
  no_shook c = record c { buffers = buffering_static_fini c.buffers }

  abbrev pub no_pmu : Client B → Client B
  no_pmu c = no_shook (record c { shook = fini_shook c.shook })

  abbrev pub no_proc : Client B → Client B
  no_proc c = no_pmu (record c { pmu = fini_pmu c.pmu })

  unfoldable pub client_module_init : Client B → Client B × ℤ
  client_module_init c =
      let (buffers, err) = buffering_static_init c.buffers in
      let buffered = record c { buffers = buffers } in
      if is_err err
      then (buffered, err)
      else let (shook, err2) = init_shook hooks buffered.shook in
        let hooked = record buffered { shook = shook } in
        if is_err err2
        then (no_shook hooked, err2)
        else let (pmu, err3) = init_pmu configure vector hooked.pmu in
          let counting = record hooked { pmu = pmu } in
          if is_err err3
          then (no_pmu counting, err3)
          else let (proc, err4) = init_proc proc_api counting.proc in
            let listed = record counting { proc = proc } in
            if is_err err4 then (no_proc listed, err4) else (listed, pos 0)

  unfoldable pub client_module_exit : Client B → Client B
  client_module_exit c = record c {
    proc = fini_proc c.proc;
    pmu = fini_pmu c.pmu;
    shook = fini_shook c.shook;
    buffers = buffering_static_fini c.buffers;
  }
