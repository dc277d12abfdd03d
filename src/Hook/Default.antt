-- ===== src/Hook/Default.antt =====
-- system_hook.c: the functions that are linked where no other file defines them. They leave the state
-- `W` of the system as it is.
use pmu_min_suite.Prelude.{ℕ, ℤ, pos}
use pmu_min_suite.Hook.{HookType}

module _ {W : Type 0} where
  abbrev pub register_fork_hook : W → W × ℤ
  register_fork_hook w = (w, pos 0)

  abbrev pub register_exit_hook : W → W × ℤ
  register_exit_hook w = (w, pos 0)

  abbrev pub unregister_fork_hook : W → W
  unregister_fork_hook w = w

  abbrev pub unregister_exit_hook : W → W
  unregister_exit_hook w = w

  -- `func` is an address.
  abbrev pub register_hook : W → HookType → ℕ → W × ℤ
  register_hook w type func = (w, pos 0)

  abbrev pub unregister_hook : W → HookType → ℕ → W
  unregister_hook w type func = w
