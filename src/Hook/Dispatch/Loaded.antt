-- ===== src/Hook/Dispatch/Loaded.antt =====
-- The hook module over tracepoints, loaded and unloaded, as the tracker sees it.
use pmu_min_suite.Prelude.{
  pos, ℕ, ◌≤◌, ◌≡◌, ◌≢◌, refl, ap, ◌∙◌, Bool, true, false, some, is_err, ℤ, arith, List, [], ◌∷◌,
}
use pmu_min_suite.Tracker.Task.{Task}
use pmu_min_suite.Tracker.Contract.{Tracker, IsCanonical}
use pmu_min_suite.Tracker.Wrappers.{Event, handle}
use pmu_min_suite.Tracker.Wrappers.Trace
use pmu_min_suite.Tracker.Wrappers.Trace.{
  Tracks, OccurAll, handle_all, inherit_all, query-handle_all,
}
use pmu_min_suite.Hook.{
  HookType, call, Shook, start_handler, stop_handler, set_shook_callback,
  switch_hook_set_state_enable, switch_hook_set_system_wide_mode, register_hooks, unregister_hooks,
  begin_exit,
}
use pmu_min_suite.Hook.Handlers.{Args, whook_sched_in, whook_proc_fork, whook_proc_exit}
use pmu_min_suite.Hook.Registry.{TracepointApi, Kmalloc}
use pmu_min_suite.Hook.Tracep.{
  Wrappers, Module, system_hooks_init, init_tracker, switch_hook_module_init, end_exit,
  switch_hook_module_exit,
}
use pmu_min_suite.Hook.Tracep.Lifecycle.{system_hooks_init_lem, hooks_list-switch_hook_module_exit}
use pmu_min_suite.Hook.Dispatch.{
  Addresses, tracker_init, tracker_fini, Traced, switch, fork, exit, invoke, trace, trace_all,
  events_of, event_of,
}

fini_keeps : (s : Shook) → (tracker_fini s).shook_enabled ≡ s.shook_enabled
unfolding unregister_hooks set_shook_callback
fini_keeps s = refl

-- The handlers run and call the wrappers.
pub record IsHooked (a : Addresses) (s : Shook) : Type 0 where
  pub enabled : s.shook_enabled ≡ true
  pub mounted : s.unmounting ≤ 1
  pub ctxs : s.hook_sched_in ≡ call a.track_ctxs
  pub forks : s.hook_proc_fork ≡ call a.track_fork
  pub exits : s.hook_proc_exit ≡ call a.track_exit

module _ (api : TracepointApi) (kmalloc : HookType → Kmalloc) (w : Wrappers) (a : Addresses) where
  init-IsHooked :
      (m m' : Module api) (err : ℤ)
      → switch_hook_module_init api kmalloc w (tracker_init a) tracker_fini m ≡ some (m', err)
      → is_err err ≡ false
      → m.shook.unmounting ≤ 1
      → IsHooked a m'.shook
  unfolding switch_hook_module_init init_tracker register_hooks set_shook_callback
      switch_hook_set_state_enable switch_hook_set_system_wide_mode
  init-IsHooked m m' err e ok mounted = record {
    enabled = ground arith;
    mounted = ground arith;
    ctxs = ground arith;
    forks = ground arith;
    exits = ground arith;
  }

  -- Unloading switches the handlers off.
  exit-disabled :
      (m m' : Module api)
      → switch_hook_module_exit api kmalloc w (tracker_init a) tracker_fini m ≡ some m'
      → m.shook.shook_initialized ≡ true
      → m.shook.unmounting ≢ 0
      → m'.shook.shook_enabled ≡ false
  unfolding switch_hook_module_exit end_exit begin_exit unregister_hooks set_shook_callback
  exit-disabled m m' e i u = ground arith

  -- What a successful loading leaves for the unloading.
  init-fields :
      (m m' : Module api) (err : ℤ)
      → switch_hook_module_init api kmalloc w (tracker_init a) tracker_fini m ≡ some (m', err)
      → is_err err ≡ false
      → (system_hooks_init api kmalloc w m.registry ≡ some (m'.registry, pos 0))
        × (m'.shook.shook_initialized ≡ true)
        × (m'.shook.unmounting ≡ m.shook.unmounting)
        × (m'.shook.usage ≡ m.shook.usage)
  unfolding switch_hook_module_init init_tracker register_hooks set_shook_callback
      switch_hook_set_state_enable switch_hook_set_system_wide_mode
  init-fields m m' err e ok = ground (arith, system_hooks_init_lem api kmalloc w m.registry)

module _ (T : Tracker) {C : Type 0} (on_attach : C → C × ℕ) (on_detach : ℕ → C → C) (a : Addresses)
    (task_of : ℕ → Task) (other : ℕ → Args → T.State × C → T.State × C) where
  trace-IsHooked :
      (s : Shook) (k : T.State × C) (e : Traced)
      → IsHooked a s
      → trace T on_attach on_detach a task_of other (s, k) e
        ≡ (s, handle T on_attach on_detach k (event_of T on_attach on_detach a task_of other e))
  unfolding trace invoke whook_sched_in whook_proc_fork whook_proc_exit start_handler stop_handler
      handle
  trace-IsHooked s k (switch prev next) h = ground (arith, h.enabled, h.mounted, h.ctxs)
  trace-IsHooked s k (fork alloc parent child) h = ground (arith, h.enabled, h.mounted, h.forks)
  trace-IsHooked s k (exit p) h = ground (arith, h.enabled, h.mounted, h.exits)

  trace_disabled :
      (s : Shook) (k : T.State × C) (e : Traced)
      → s.shook_enabled ≡ false
      → trace T on_attach on_detach a task_of other (s, k) e ≡ (s, k)
  unfolding trace invoke whook_sched_in whook_proc_fork whook_proc_exit start_handler
  trace_disabled s k (switch prev next) h = ground (arith, h)
  trace_disabled s k (fork alloc parent child) h = ground (arith, h)
  trace_disabled s k (exit p) h = ground (arith, h)

  trace_all-IsHooked :
      (canonical : (c : C) → IsCanonical (on_attach c).1) (W : Trace.World) (es : List Traced)
      (s : Shook) (k : T.State × C)
      → IsHooked a s
      → trace_all T on_attach on_detach a task_of other (s, k) es ≡ (
        s,
        handle_all T on_attach on_detach canonical W k
            (events_of T on_attach on_detach a task_of other es),
      )
  unfolding trace_all handle_all
  trace_all-IsHooked canonical W [] s k h = refl
  trace_all-IsHooked canonical W (e ∷ es) s k h =
      ap (λ sk. trace_all T on_attach on_detach a task_of other sk es) (trace-IsHooked s k e h)
      ∙ trace_all-IsHooked canonical W es s
          (handle T on_attach on_detach k (event_of T on_attach on_detach a task_of other e)) h

  trace_all_disabled :
      (es : List Traced) (s : Shook) (k : T.State × C)
      → s.shook_enabled ≡ false
      → trace_all T on_attach on_detach a task_of other (s, k) es ≡ (s, k)
  unfolding trace_all
  trace_all_disabled [] s k h = refl
  trace_all_disabled (e ∷ es) s k h =
      ap (λ sk. trace_all T on_attach on_detach a task_of other sk es) (trace_disabled s k e h)
      ∙ trace_all_disabled es s k h

module _ (api : TracepointApi) (kmalloc : HookType → Kmalloc) (w : Wrappers) (a : Addresses)
    (T : Tracker) {C : Type 0} (on_attach : C → C × ℕ) (on_detach : ℕ → C → C)
    (canonical : (c : C) → IsCanonical (on_attach c).1) (W : Trace.World) (task_of : ℕ → Task)
    (other : ℕ → Args → T.State × C → T.State × C) where
  abbrev pub traced : Shook × (T.State × C) → List Traced → Shook × (T.State × C)
  traced sk es = trace_all T on_attach on_detach a task_of other sk es

  abbrev pub events : List Traced → List Event
  events es = events_of T on_attach on_detach a task_of other es

  -- For every tracker and callbacks that attach canonical pointers: if the module over tracepoints
  -- was loaded with success while no unloading had begun and no handler was in use, the tracker
  -- answers as a set of pids does, and the events at the tracepoints are of tasks of a system (live
  -- tasks, one for a pid, that share nothing), where each fork makes a child whose pid is not in
  -- the set yet and finds the memory for its entry in the tracker, then after these events the
  -- switches and callbacks are as loading left them, unloading has a defined behaviour and restores
  -- the list of hooks, and after it, whatever the kernel reports, each task of the system is
  -- tracked just if the events before the unloading leave its pid in the set: a child as its parent
  -- was at the fork, no task after its exit.
  pub query-trace_all :
      (m m' : Module api) (err : ℤ) (k : T.State × C) (set : ℕ → Bool) (es late : List Traced)
      (t : Task)
      → switch_hook_module_init api kmalloc w (tracker_init a) tracker_fini m ≡ some (m', err)
      → is_err err ≡ false
      → m.shook.unmounting ≡ 1
      → m.shook.usage ≤ 1
      → Tracks T on_attach on_detach canonical W k.0 set
      → OccurAll W set (events es)
      → W.Has t
      → ((traced (m'.shook, k) es).0 ≡ m'.shook)
        × ((m'' : Module api) × (switch_hook_module_exit api kmalloc w
                (tracker_init a)
                tracker_fini
                m'
              ≡ some m'')
            × (m''.registry.hooks_list ≡ m.registry.hooks_list)
            × (T.query_tracker (traced (m''.shook, (traced (m'.shook, k) es).1) late).1.0 t
                ≡ inherit_all set (events es) t.pid))
  query-trace_all m m' err k set es late t loads ok mounted unused tracks occur has =
      let hooked = init-IsHooked api kmalloc w a m m' err loads ok (omega arith) in
      let (registered, initialized, same_mounts, same_usage) =
        init-fields api kmalloc w a m m' err loads ok in
      let (m'', unloads, restored, disabled, cleared) =
        hooks_list-switch_hook_module_exit api kmalloc w (tracker_init a) tracker_fini m.registry m'
          registered initialized (omega arith) (omega arith) fini_keeps in
      let ran =
        trace_all-IsHooked T on_attach on_detach a task_of other canonical W es m'.shook k hooked in
      (
        ap (λ (sk : Shook × (T.State × C)). sk.0) ran,
        (
          m'',
          unloads,
          restored,
          ap (λ (sk : Shook × (T.State × C)). T.query_tracker sk.1.0 t)
                (trace_all_disabled T on_attach on_detach a task_of other late m''.shook
                  (traced (m'.shook, k) es).1 disabled)
              ∙ ap (λ (sk : Shook × (T.State × C)). T.query_tracker sk.1.0 t) ran
              ∙ query-handle_all T on_attach on_detach canonical W (events es) k.0 k.1 set tracks
                  occur t has,
        ),
      )
