-- ===== src/Hook/GateTests.antt =====
-- The theorems on the gate at concrete runs of one processor and the exit function.
use pmu_min_suite.Prelude.{ℕ, ◌+◌, ◌<◌, ◌≡◌, ◌≢◌, refl, false, arith}
use pmu_min_suite.Prelude.Family.{update, total}
use pmu_min_suite.Hook.Gate.{
  checked, admitted, inside, draining, unloaded, System, started, Reach, here, later, handler, exit,
  see_enabled, see_mounted, count_in, raise, disable, drain, finish,
}
use pmu_min_suite.Hook.Gate.Safety.{running, usage_lem, drain-safe}

-- A processor in a callback.
abbrev one_inside : System
one_inside = record started {
  usage = 2;
  pc = update (update (update started.pc 0 checked) 0 admitted) 0 inside;
}

enters : Reach 1 started one_inside
enters =
    later
      (later (later here (handler 0 (omega arith) refl (see_enabled refl)))
        (handler 0 (omega arith) refl (see_mounted (omega arith))))
      (handler 0 (omega arith) refl count_in)

usage_lem_example : one_inside.usage ≡ 1 + total running 1 one_inside.pc
usage_lem_example = usage_lem enters

-- The exit function in its loop, with nobody in a callback.
abbrev quiet : System
quiet = record started { shook_enabled = false; unmounting = 2; exit_pc = draining }

quiets : Reach 1 started quiet
quiets = later (later here (exit (raise refl (omega arith)))) (exit disable)

none_admitted : (i : ℕ) → i < 1 → quiet.pc i ≢ admitted
none_admitted i h e = cc

drain-safe_example : quiet.pc 0 ≢ inside
drain-safe_example =
    drain-safe {s = quiet} {s' = quiet}
      {t = record quiet { exit_pc = unloaded; shook_initialized = false }} quiets refl
      (drain (omega arith)) none_admitted (later here (exit finish)) 0 (omega arith)
