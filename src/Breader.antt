-- ===== src/Breader.antt =====
-- breader/breader_module.c, breader_module.h and breader_api.h: the buffer that three files in /proc
-- show, and loading and unloading the module. The pages that `__get_free_pages` gives, with what they
-- hold, and the results of `proc_create` are arguments. `DATA_BUFFER_SIZE` is that of pages of 4096
-- bytes.
pub mod Loading
pub mod Raw
pub mod Seq
pub mod Mmap
mod Tests
use pmu_min_suite.Prelude.{
  ℕ, ◌-◌, ◌*◌, ◌/◌, ◌^◌, Bool, true, false, Option, none, some, ◌==◌, if◌then◌else◌, ltb, ℤ, pos,
  is_err, enomem, enodev, page_size,
}

abbrev pub data_buffer_order : ℕ
data_buffer_order = 10

abbrev pub data_buffer_size : ℕ
data_buffer_size = page_size * 2 ^ data_buffer_order

abbrev pub data_buffer_len : ℕ
data_buffer_len = data_buffer_size / 8

abbrev pub code : ℕ
code = 1

-- Words by their index.
abbrev pub Words : Type 0
Words = ℕ → ℕ

-- The buffer after the two calls of `memset`.
unfoldable pub filled : Words → Words
filled pages i =
    if i == data_buffer_len - 1 then 0 else if ltb i data_buffer_len then code else pages i

pub record BreaderApi : Type 0 where
  pub get_free_pages : Option Words
  pub seq_created : Bool
  pub raw_created : Bool
  pub mmap_created : Bool

-- The pages and the files that the module has.
pub record Breader : Type 0 where
  pub data_buffer : Option Words
  pub seq_file : Bool
  pub raw_file : Bool
  pub mmap_file : Bool

abbrev pub init_data : BreaderApi → Breader → Breader × ℤ
init_data api b = elim api.get_free_pages [
  | none ↦ (record b { data_buffer = none }, enomem)
  | some pages ↦ (record b { data_buffer = some (filled pages) }, pos 0)
]

abbrev pub fini_data : Breader → Breader
fini_data b = record b { data_buffer = none }

-- The result of the three functions that create a file.
abbrev pub created : Bool → ℤ
created ok = if ok then pos 0 else enodev

abbrev pub init_seq_file : BreaderApi → Breader → Breader × ℤ
init_seq_file api b = (record b { seq_file = api.seq_created }, created api.seq_created)

abbrev pub fini_seq_file : Breader → Breader
fini_seq_file b = record b { seq_file = false }

abbrev pub init_raw_file : BreaderApi → Breader → Breader × ℤ
init_raw_file api b = (record b { raw_file = api.raw_created }, created api.raw_created)

abbrev pub fini_raw_file : Breader → Breader
fini_raw_file b = record b { raw_file = false }

abbrev pub init_mmap_file : BreaderApi → Breader → Breader × ℤ
init_mmap_file api b = (record b { mmap_file = api.mmap_created }, created api.mmap_created)

abbrev pub fini_mmap_file : Breader → Breader
fini_mmap_file b = record b { mmap_file = false }

unfoldable pub breader_module_init : BreaderApi → Breader → Breader × ℤ
breader_module_init api b =
    let (with_data, err) = init_data api b in
    if is_err err
    then (with_data, err)
    else let (with_seq, err_seq) = init_seq_file api with_data in
      if is_err err_seq
      then (fini_data with_seq, err_seq)
      else let (with_raw, err_raw) = init_raw_file api with_seq in
        if is_err err_raw
        then (fini_data (fini_seq_file with_raw), err_raw)
        else let (with_mmap, err_mmap) = init_mmap_file api with_raw in
          if is_err err_mmap
          then (fini_data (fini_seq_file (fini_raw_file with_mmap)), err_mmap)
          else (with_mmap, pos 0)

unfoldable pub breader_module_exit : Breader → Breader
breader_module_exit b = fini_data (fini_seq_file (fini_raw_file (fini_mmap_file b)))
