-- ===== src/Client/Buffering.antt =====
-- client/buffering/: where the samples go, by the file that is linked. A clist is given by its
-- address; init_clist of client/clist/ is an argument, with the address that it returns or NULL, and
-- `live` tells which clists are allocated.
pub mod Cpus
pub mod Default
pub mod Heap
pub mod Samples
pub mod Bthread
pub mod Bsystem
use pmu_min_suite.Prelude.{
  page_size, ℕ, zero, suc, ◌*◌, ◌/◌, Bool, true, false, Option, none, some, if◌then◌else◌, ltb, ℤ,
  pos, enomem, einval,
}
use pmu_min_suite.Prelude.Family.{update}

abbrev pub local_buffer_size : ℕ
local_buffer_size = page_size * 16

abbrev pub global_buffer_size : ℕ
global_buffer_size = page_size * 256

abbrev pub fini_clist : (ℕ → Bool) → Option ℕ → ℕ → Bool
fini_clist live none = live
fini_clist live (some a) = update live a false

abbrev pub init_live : (ℕ → Bool) → Option ℕ → ℕ → Bool
init_live live none = live
init_live live (some a) = update live a true

-- buffering/bcpu.c: one clist for each processor.
pub record Bcpu : Type 0 where
  pub pcpu_clist : ℕ → Option ℕ
  pub live : ℕ → Bool

-- The entries of a buffer of `size` bytes, the first argument of init_clist.
abbrev pub buff_entries : ℕ → ℕ → ℕ
buff_entries size entry_size = size / entry_size

-- `init_clist` is given the processor as well, for the call that runs for it.
module _ (init_clist : ℕ → ℕ → ℕ → Option ℕ) (entry_size : ℕ) where
  abbrev pub alloc : ℕ → Option ℕ
  alloc cpu = init_clist cpu (buff_entries global_buffer_size entry_size) entry_size

  abbrev pub fill_cpu : Bcpu → ℕ → Bcpu
  fill_cpu b cpu = record {
    pcpu_clist = update b.pcpu_clist cpu (alloc cpu);
    live = init_live b.live (alloc cpu);
  }

  -- The first loop over the processors below `n`; with it the processor where it stopped.
  unfoldable pub fill : ℕ → Bcpu → Bcpu × Option ℕ
  fill zero b = (b, none)
  fill (suc n) b =
      let (b', stop) = fill n b in
      elim stop [
        | some cpu ↦ (b', some cpu)
        | none ↦ (fill_cpu b' n, elim (alloc n) [ none ↦ some n | some a ↦ none ])
      ]

  -- The loop behind `alloc_fail`: one round for each processor before `cpu`.
  unfoldable pub fail_rounds : ℕ → ℕ → Bcpu → Bcpu
  fail_rounds cpu zero b = b
  fail_rounds cpu (suc n) b =
      let b' = fail_rounds cpu n b in record b' { live = fini_clist b'.live (b'.pcpu_clist cpu) }

  unfoldable pub buffering_static_init : ℕ → Bcpu → Bcpu × ℤ
  buffering_static_init nr_cpus b =
      let (b', stop) = fill nr_cpus b in
      elim stop [ none ↦ (b', pos 0) | some cpu ↦ (fail_rounds cpu cpu b', enomem) ]

unfoldable pub buffering_static_fini : ℕ → Bcpu → Bcpu
buffering_static_fini zero b = b
buffering_static_fini (suc n) b =
    let b' = buffering_static_fini n b in record b' { live = fini_clist b'.live (b'.pcpu_clist n) }
