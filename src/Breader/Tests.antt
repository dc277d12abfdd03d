-- ===== src/Breader/Tests.antt =====
-- The buffer reader on concrete inputs.
use pmu_min_suite.Prelude.{
  ℕ, ◌+◌, ◌-◌, ◌*◌, ◌/◌, ◌≤◌, ◌<◌, ◌≡◌, ◌↔◌, refl, true, false, none, some, if◌then◌else◌, ◌==◌,
  pos, einval, [], ◌∷◌, arith,
}
use pmu_min_suite.Breader.{Words, BreaderApi, filled, data_buffer_len, data_buffer_size}
use pmu_min_suite.Breader.Raw.{breader_read, read_file}
use pmu_min_suite.Breader.Raw.Progress.{read_file_lem}
use pmu_min_suite.Breader.Seq.{breader_seq_show, seq_read}
use pmu_min_suite.Breader.Seq.Walk.{rows_of, seq_read_lem}
use pmu_min_suite.Breader.Mmap.{mapped}

-- Each word is its own index.
abbrev words : Words
words i = i

abbrev copies_all : ℕ → ℕ
copies_all n = 0

-- The file for the raw reads is not made.
abbrev no_raw : BreaderApi
no_raw = record {
  get_free_pages = some words;
  seq_created = true;
  raw_created = false;
  mmap_created = true;
}

filled_last : filled words (data_buffer_len - 1) ≡ 0
unfolding filled
filled_last = refl

-- A read of 16 bytes at byte 8 gives 2 bytes, of word 0.
breader_read_two :
    breader_read words copies_all 16 8
    ≡ some (record { ppos = 10; ret = pos 2; copied = 0 ∷ 0 ∷ [] })
unfolding breader_read
breader_read_two = refl

breader_read_askew :
    breader_read words copies_all 16 10 ≡ some (record { ppos = 10; ret = einval; copied = [] })
unfolding breader_read
breader_read_askew = refl

read_file_lem_example :
    (n : ℕ) × (data_buffer_size ≤ n * (32768 / 8))
    × (n * (32768 / 8) < data_buffer_size + 32768 / 8)
    × (read_file words copies_all 32768 0 (data_buffer_size + 1) 0
        ≡ some (n * (32768 / 8), if n * (32768 / 8) == data_buffer_size then pos 0 else einval))
read_file_lem_example =
    read_file_lem words 32768 (data_buffer_size + 1) (omega arith) refl (omega arith) (omega arith)

seq_read_lem_example :
    (seq_read words data_buffer_len 100 ≡ some (rows_of words 100 (data_buffer_len - 100)))
    × ((v : ℕ) → (breader_seq_show words v ≡ none) ↔ (data_buffer_len < v + 8))
seq_read_lem_example = seq_read_lem words data_buffer_len 100 (omega arith) (omega arith)

-- Word 513 of the mapped file is word 1 of the buffer.
mapped_second_page : mapped (some words) 513 ≡ some 1
mapped_second_page = refl
