-- ===== src/Client/Buffering/Default.antt =====
-- client/buffering/buffering.c: the functions that are linked where no other file defines them.
use pmu_min_suite.Prelude.{ℕ, ℤ, pos, List}

module _ {W : Type 0} where
  abbrev pub buffering_static_init : W → W × ℤ
  buffering_static_init w = (w, pos 0)

  abbrev pub buffering_dynamic_init : W → W × ℕ
  buffering_dynamic_init w = (w, 0)

  abbrev pub buffering_dynamic_fini : W → W
  buffering_dynamic_fini w = w

  abbrev pub buffering_static_fini : W → W
  buffering_static_fini w = w

  abbrev pub write_sample : W → List ℕ → W × ℤ
  write_sample w sample = (w, pos 0)
