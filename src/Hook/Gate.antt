-- ===== src/Hook/Gate.antt =====
-- `start_handler` and `stop_handler` of system_hook.c on many processors, against the unloading of
-- the hook module, one access to a shared variable at a time. The processors are numbered; the
-- kernel calls a handler with preemption disabled, so a processor runs one at a time. A client may
-- write the enable switch at any time.
pub mod Safety
use pmu_min_suite.Prelude.{ℕ, ◌+◌, ◌-◌, ◌≤◌, ◌<◌, ◌≡◌, Bool, true, false}
use pmu_min_suite.Prelude.Family.{update}

-- Where a processor stands in a handler.
pub data Pc : Type 0 where
  idle : Pc  -- in no handler
  checked : Pc  -- has read `shook_enabled` as true
  admitted : Pc  -- has read `unmounting` as at most 1
  inside : Pc  -- has counted itself in `usage`; the callback runs

-- Where the exit function stands.
pub data ExitPc : Type 0 where
  live : ExitPc  -- not called
  raised : ExitPc  -- has incremented `unmounting`
  draining : ExitPc  -- has cleared `shook_enabled`; the loop on `usage`
  drained : ExitPc  -- has left the loop
  unloaded : ExitPc  -- has returned

pub record System : Type 0 where
  pub shook_enabled : Bool
  pub unmounting : ℕ
  pub usage : ℕ
  pub shook_initialized : Bool
  pub exit_pc : ExitPc
  pub pc : ℕ → Pc

-- A loaded and enabled module that no handler has entered.
abbrev pub started : System
started = record {
  shook_enabled = true;
  unmounting = 1;
  usage = 1;
  shook_initialized = true;
  exit_pc = live;
  pc = λ i. idle;
}

-- One step of the handler of a processor, from its place to the next: `start_handler` and, from
-- `inside`, `stop_handler`.
pub data HandlerStep (s : System) : Pc → System → Pc → Type 0 where
  see_enabled : s.shook_enabled ≡ true → HandlerStep s idle s checked
  see_disabled : s.shook_enabled ≡ false → HandlerStep s idle s idle
  see_mounted : s.unmounting ≤ 1 → HandlerStep s checked s admitted
  see_unmounting : 1 < s.unmounting → HandlerStep s checked s idle
  count_in : HandlerStep s admitted (record s { usage = s.usage + 1 }) inside
  count_out : HandlerStep s inside (record s { usage = s.usage - 1 }) idle

-- One step of `switch_hook_module_exit`. `refcount_inc_not_zero` succeeds on a positive counter.
pub data ExitStep (s : System) : ExitPc → System → ExitPc → Type 0 where
  raise :
      s.shook_initialized ≡ true
      → 0 < s.unmounting
      → ExitStep s live (record s { unmounting = s.unmounting + 1 }) raised
  disable : ExitStep s raised (record s { shook_enabled = false }) draining
  spin : 1 < s.usage → ExitStep s draining s draining
  drain : s.usage ≤ 1 → ExitStep s draining s drained
  finish : ExitStep s drained (record s { shook_initialized = false }) unloaded

-- `n` processors, the exit function and a client, interleaved in any order.
pub data Step (n : ℕ) (s : System) : System → Type 0 where
  handler :
      (i : ℕ) {t : System} {p q : Pc}
      → i < n
      → s.pc i ≡ p
      → HandlerStep s p t q
      → Step n s (record t { pc = update s.pc i q })
  exit : {t : System} {p : ExitPc} → ExitStep s s.exit_pc t p → Step n s (record t { exit_pc = p })
  client : (state : Bool) → Step n s (record s { shook_enabled = state })

pub data Reach (n : ℕ) (s : System) : System → Type 0 where
  here : Reach n s s
  later : {t u : System} → Reach n s t → Step n t u → Reach n s u
