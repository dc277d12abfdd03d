-- ===== src/Breader/Loading.antt =====
-- The outcomes of loading and unloading in breader/breader_module.c.
use pmu_min_suite.Prelude.{
  ◌≡◌, true, false, none, some, ◌&&◌, if◌then◌else◌, pos, enomem, enodev, arith,
}
use pmu_min_suite.Breader.{BreaderApi, Breader, filled, breader_module_init, breader_module_exit}

-- The module has nothing.
abbrev pub unloaded : Breader
unloaded = record { data_buffer = none; seq_file = false; raw_file = false; mmap_file = false }

-- Loading returns 0 exactly when the pages and all three files are there, and then the module has
-- them and unloading takes them away; else it returns -ENOMEM for the pages and -ENODEV for a file,
-- and leaves nothing behind.
breader_module_init_lem :
    (api : BreaderApi)
    → (breader_module_init api unloaded ≡ (elim api.get_free_pages [
      | none ↦ (unloaded, enomem)
      | some pages ↦
          if api.seq_created && (api.raw_created && api.mmap_created)
          then (
            record {
              data_buffer = some (filled pages);
              seq_file = true;
              raw_file = true;
              mmap_file = true;
            },
            pos 0,
          )
          else (unloaded, enodev)
    ]))
      × (breader_module_exit (breader_module_init api unloaded).0 ≡ unloaded)
unfolding breader_module_init breader_module_exit
breader_module_init_lem api = ground arith
