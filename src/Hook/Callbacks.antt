-- ===== src/Hook/Callbacks.antt =====
-- The callback table and the gate that a handler passes, on one processor.
use pmu_min_suite.Prelude.{
  ℕ, ◌+◌, ◌≤◌, ◌≡◌, Bool, true, false, Option, none, some, if◌then◌else◌, arith, ◌↔◌,
}
use pmu_min_suite.Hook.{
  HookType, sched_in, sched_out, proc_exec, proc_exit, proc_fork, proc_free, on_attach, on_detach,
  same_type, Callback, Shook, start_handler, stop_handler, assign_hook, set_shook_callback,
}

-- The callback of a type; `none` for a type that has none.
pub callback : Shook → HookType → Option Callback
callback s sched_in = some s.hook_sched_in
callback s proc_fork = some s.hook_proc_fork
callback s proc_exit = some s.hook_proc_exit
callback s on_attach = some s.hook_on_attach
callback s on_detach = some s.hook_on_detach
callback s _ = none

abbrev pub hooked : HookType → Bool
hooked sched_out = false
hooked proc_exec = false
hooked proc_free = false
hooked _ = true

-- Setting a callback replaces that of its type, by the dummy function if the hook is NULL, and
-- leaves the callbacks of the other types; a type that has no callback changes nothing.
callback-set_shook_callback :
    (s : Shook) (hook : Option ℕ) (t u : HookType)
    → callback (set_shook_callback s hook t) u ≡ (
        if same_type t u
        then (if hooked t then some (assign_hook hook) else none)
        else callback s u)
unfolding callback set_shook_callback
callback-set_shook_callback s hook t u = ground arith

-- A handler starts exactly when the module is enabled and is not being unmounted; it then holds
-- one use and has preemption disabled, and stopping gives both back.
start_handler_lem :
    (s : Shook)
    → (((start_handler s).1 ≡ true) ↔ ((s.shook_enabled ≡ true) × (s.unmounting ≤ 1)))
      × ((start_handler s).1 ≡ true
          → ((start_handler s).0.usage ≡ s.usage + 1)
            × ((start_handler s).0.preempt_count ≡ s.preempt_count + 1)
            × (stop_handler (start_handler s).0 ≡ s))
      × ((start_handler s).1 ≡ false → (start_handler s).0 ≡ s)
unfolding start_handler stop_handler
start_handler_lem s = ground arith
