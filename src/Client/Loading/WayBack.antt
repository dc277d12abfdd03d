-- ===== src/Client/Loading/WayBack.antt =====
-- The outcomes of loading and unloading in client/client_module.c.
use mathlib.Core.Path.{subst}
use pmu_min_suite.Prelude.{sym, ◌⊎◌, ℕ, ◌≡◌, refl, true, false, if◌then◌else◌, ℤ, is_err, arith}
use pmu_min_suite.Hook.{
  dummy, call, Shook, set_shook_callback, switch_hook_set_state_enable,
  switch_hook_set_system_wide_mode,
}
use pmu_min_suite.Client.Pmu.{Settings}
use pmu_min_suite.Client.Vector.{VectorApi}
use pmu_min_suite.Client.Vector.Restore.{fini_pmu_lem}
use pmu_min_suite.Client.Loading.{
  ClientHooks, ProcApi, Client, init_shook, fini_shook, init_proc, fini_proc, client_module_init,
  client_module_exit,
}

-- What a client leaves of the hook module when it goes, from the state before it came: the handlers
-- are off, the callbacks that a client sets are the dummy functions, whatever was there, and all else
-- is as before.
pub record IsLeft (before after : Shook) : Type 0 where
  pub off : after.shook_enabled ≡ false
  pub not_wide : after.system_wide_mode ≡ false
  pub no_sched_in : after.hook_sched_in ≡ dummy
  pub no_attach : after.hook_on_attach ≡ dummy
  pub no_detach : after.hook_on_detach ≡ dummy
  pub same_fork : after.hook_proc_fork ≡ before.hook_proc_fork
  pub same_exit : after.hook_proc_exit ≡ before.hook_proc_exit
  pub same_initialized : after.shook_initialized ≡ before.shook_initialized
  pub same_usage : after.usage ≡ before.usage
  pub same_mounts : after.unmounting ≡ before.unmounting
  pub same_preempt : after.preempt_count ≡ before.preempt_count

-- What a client has of the hook module: the handlers are on and call the client's functions, and all
-- else is as before.
pub record IsServed (h : ClientHooks) (before after : Shook) : Type 0 where
  pub on : after.shook_enabled ≡ true
  pub wide : after.system_wide_mode ≡ true
  pub sched_in : after.hook_sched_in ≡ call h.client_hook_sched_in
  pub attach : after.hook_on_attach ≡ call h.client_hook_on_attach
  pub detach : after.hook_on_detach ≡ call h.client_hook_on_detach
  pub same_fork : after.hook_proc_fork ≡ before.hook_proc_fork
  pub same_exit : after.hook_proc_exit ≡ before.hook_proc_exit
  pub same_initialized : after.shook_initialized ≡ before.shook_initialized
  pub same_usage : after.usage ≡ before.usage
  pub same_mounts : after.unmounting ≡ before.unmounting
  pub same_preempt : after.preempt_count ≡ before.preempt_count

fini_shook-IsLeft : (h : ClientHooks) (s : Shook) → IsLeft s (fini_shook (init_shook h s).0)
unfolding fini_shook init_shook set_shook_callback switch_hook_set_state_enable
    switch_hook_set_system_wide_mode
fini_shook-IsLeft h s = record {
  off = refl;
  not_wide = refl;
  no_sched_in = refl;
  no_attach = refl;
  no_detach = refl;
  same_fork = refl;
  same_exit = refl;
  same_initialized = refl;
  same_usage = refl;
  same_mounts = refl;
  same_preempt = refl;
}

module _ {B : Type 0} (buffering_static_init : B → B × ℤ) (buffering_static_fini : B → B)
    (hooks : ClientHooks) (configure : Settings → Settings) (vector : VectorApi)
    (proc_api : ProcApi) where
  abbrev pub loading : Client B → Client B × ℤ
  loading =
      client_module_init buffering_static_init buffering_static_fini hooks configure vector proc_api

  abbrev pub unloading : Client B → Client B
  unloading =
      client_module_exit buffering_static_init buffering_static_fini hooks configure vector proc_api

  -- What is left of the buffers after a failure.
  abbrev pub given_back : B → B
  given_back b =
      if is_err (buffering_static_init b).1
      then (buffering_static_init b).0
      else buffering_static_fini (buffering_static_init b).0

  -- The hook module after loading, and after unloading.
  shook-loading :
      (c : Client B)
      → (is_err (loading c).1 ≡ true
          → ((is_err (buffering_static_init c.buffers).1 ≡ true) × ((loading c).0.shook ≡ c.shook))
            ⊎ ((loading c).0.shook ≡ fini_shook (init_shook hooks c.shook).0))
        × (is_err (loading c).1 ≡ false
            → ((loading c).0.shook ≡ (init_shook hooks c.shook).0)
              × ((unloading (loading c).0).shook ≡ fini_shook (init_shook hooks c.shook).0))
  unfolding client_module_init client_module_exit init_shook
  shook-loading c = ground arith

  rest-unloading :
      (c : Client B) (cpu : ℕ)
      → c.proc.dir_exists ≡ false
      → is_err (loading c).1 ≡ false
      → (((unloading (loading c).0).pmu.cpus cpu).global_ctrl ≡ 0)
        × ((unloading (loading c).0).proc.dir_exists ≡ false)
        × ((unloading (loading c).0).buffers
            ≡ buffering_static_fini (buffering_static_init c.buffers).0)
  unfolding client_module_init client_module_exit init_proc fini_proc
  rest-unloading c cpu hd loads = ground (arith, fini_pmu_lem (loading c).0.pmu cpu)

  -- Unloading after loading returned 0 turns the counters off, leaves no directory in /proc if there
  -- was none before, frees the buffers, and leaves the handlers of the hook module off and the dummy
  -- functions for the client's callbacks, whatever they were before.
  pub client_module_exit-client_module_init :
      (c : Client B) (cpu : ℕ)
      → c.proc.dir_exists ≡ false
      → is_err (loading c).1 ≡ false
      → IsLeft c.shook (unloading (loading c).0).shook
        × (((unloading (loading c).0).pmu.cpus cpu).global_ctrl ≡ 0)
        × ((unloading (loading c).0).proc.dir_exists ≡ false)
        × ((unloading (loading c).0).buffers
            ≡ buffering_static_fini (buffering_static_init c.buffers).0)
  client_module_exit-client_module_init c cpu hd loads =
      let (counters, no_dir, buffers) = rest-unloading c cpu hd loads in
      (
        subst (IsLeft c.shook) (sym ((shook-loading c).1 loads).1)
            (fini_shook-IsLeft hooks c.shook),
        counters,
        no_dir,
        buffers,
      )
