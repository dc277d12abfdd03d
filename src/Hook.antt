-- ===== src/Hook.antt =====
-- system_hook.c and the enumeration of hooks.h: the switches, the callbacks and the counter of
-- running handlers that the hook module and its clients share. The kernel's `refcount_t` is a
-- number; its saturation, above the number of processors, is not modelled.
pub mod Callbacks
pub mod Loop
pub mod Registry
pub mod Tracep
pub mod Kprobe
pub mod Handlers
pub mod Default
pub mod Dispatch
pub mod Gate
mod Tests
mod ProbeTests
mod GateTests
mod DispatchTests
use pmu_min_suite.Prelude.{
  ℕ, ◌+◌, ◌-◌, Bool, true, false, Option, none, some, if◌then◌else◌, ltb, not,
}

-- `enum hook_type`
pub data HookType : Type 0 where
  sched_in sched_out proc_exec proc_exit proc_fork proc_free on_attach on_detach : HookType

-- Equality of the enumeration.
abbrev pub same_type : HookType → HookType → Bool
same_type sched_in sched_in = true
same_type sched_out sched_out = true
same_type proc_exec proc_exec = true
same_type proc_exit proc_exit = true
same_type proc_fork proc_fork = true
same_type proc_free proc_free = true
same_type on_attach on_attach = true
same_type on_detach on_detach = true
same_type _ _ = false

-- A callback pointer: one of the dummy functions, or a function that was set. A function is given
-- by its address.
pub data Callback : Type 0 where
  dummy : Callback
  call : ℕ → Callback

pub record Shook : Type 0 where
  pub shook_enabled : Bool
  pub system_wide_mode : Bool
  pub shook_initialized : Bool
  pub usage : ℕ
  pub unmounting : ℕ
  pub preempt_count : ℕ
  pub hook_sched_in : Callback
  pub hook_proc_fork : Callback
  pub hook_proc_exit : Callback
  pub hook_on_attach : Callback
  pub hook_on_detach : Callback

-- The static initial values.
abbrev pub loaded : Shook
loaded = record {
  shook_enabled = false;
  system_wide_mode = false;
  shook_initialized = false;
  usage = 1;
  unmounting = 1;
  preempt_count = 0;
  hook_sched_in = dummy;
  hook_proc_fork = dummy;
  hook_proc_exit = dummy;
  hook_on_attach = dummy;
  hook_on_detach = dummy;
}

unfoldable pub start_handler : Shook → Shook × Bool
start_handler s =
    if not s.shook_enabled
    then (s, false)
    else if ltb 1 s.unmounting
    then (s, false)
    else (record s { preempt_count = s.preempt_count + 1; usage = s.usage + 1 }, true)

-- Called after a `start_handler` that returned true, so both counters are positive.
unfoldable pub stop_handler : Shook → Shook
stop_handler s = record s { usage = s.usage - 1; preempt_count = s.preempt_count - 1 }

-- `assign_hook`; a NULL hook is `none`.
abbrev pub assign_hook : Option ℕ → Callback
assign_hook none = dummy
assign_hook (some f) = call f

unfoldable pub set_shook_callback : Shook → Option ℕ → HookType → Shook
set_shook_callback s hook sched_in = record s { hook_sched_in = assign_hook hook }
set_shook_callback s hook proc_fork = record s { hook_proc_fork = assign_hook hook }
set_shook_callback s hook proc_exit = record s { hook_proc_exit = assign_hook hook }
set_shook_callback s hook on_attach = record s { hook_on_attach = assign_hook hook }
set_shook_callback s hook on_detach = record s { hook_on_detach = assign_hook hook }
set_shook_callback s hook _ = s

unfoldable pub switch_hook_set_state_enable : Shook → Bool → Shook
switch_hook_set_state_enable s state = record s { shook_enabled = state }

unfoldable pub switch_hook_set_system_wide_mode : Shook → Bool → Shook
switch_hook_set_system_wide_mode s mode = record s { system_wide_mode = mode }

-- `register_hooks` and `unregister_hooks` of ptracker.c, given the addresses of its wrappers.
unfoldable pub register_hooks : ℕ → ℕ → ℕ → Shook → Shook
register_hooks track_ctxs track_fork track_exit s =
    set_shook_callback
      (set_shook_callback (set_shook_callback s (some track_ctxs) sched_in) (some track_fork)
        proc_fork)
      (some track_exit) proc_exit

unfoldable pub unregister_hooks : Shook → Shook
unregister_hooks s =
    set_shook_callback (set_shook_callback (set_shook_callback s none sched_in) none proc_fork) none
      proc_exit

-- The first writes of the exit functions: `refcount_inc_not_zero(&unmounting)`, of a counter that is
-- not 0, and `shook_enabled = 0`.
unfoldable pub begin_exit : Shook → Shook
begin_exit s = record s { unmounting = s.unmounting + 1; shook_enabled = false }
