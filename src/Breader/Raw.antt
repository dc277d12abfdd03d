-- ===== src/Breader/Raw.antt =====
-- breader/breader_raw.c: the file that gives the bytes of the buffer. `copy_to_user` is an argument,
-- which gives the number of bytes that it did not copy. `none` is a copy from behind the buffer.
pub mod Copied
pub mod Progress
use pmu_min_suite.Prelude.{
  ℕ, zero, suc, ◌+◌, ◌-◌, ◌*◌, ◌/◌, ◌%◌, ◌^◌, Bool, Option, none, some, ◌==◌, if◌then◌else◌, ltb,
  leb, not, bit_and, ℤ, pos, negsuc, einval, List, [], ◌∷◌, size_of_int,
}
use pmu_min_suite.Breader.{Words, data_buffer_len, data_buffer_size}

-- The bytes of the words, the lowest first.
abbrev pub byte : Words → ℕ → ℕ
byte words i = words (i / 8) / 256 ^ (i % 8) % 256

abbrev pub bytes_from : Words → ℕ → ℕ → List ℕ
bytes_from words off zero = []
bytes_from words off (suc n) = byte words off ∷ bytes_from words (off + 1) n

pub record ReadResult : Type 0 where
  pub ppos : ℕ
  pub ret : ℤ
  pub copied : List ℕ

abbrev pub refused : ℕ → ℤ → ReadResult
refused ppos ret = record { ppos = ppos; ret = ret; copied = [] }

-- `start` as it is compared with the unsigned `DATA_BUFFER_LEN`.
abbrev pub start_of : ℕ → ℕ
start_of ppos = size_of_int (ppos / 8 % 2 ^ 32)

-- The last value that is assigned to `to_copy` before the copy, as an `unsigned long`.
abbrev pub to_copy_of : ℕ → ℕ
to_copy_of count = size_of_int (count / 8 % 2 ^ 32)

module _ (data_buffer : Words) (copy_to_user : ℕ → ℕ) where
  abbrev pub copy : ℕ → ℕ → Option ReadResult
  copy ppos to_copy =
      if leb to_copy data_buffer_size
      then some (record {
        ppos = ppos + (to_copy - copy_to_user to_copy);
        ret = pos (to_copy - copy_to_user to_copy);
        copied = bytes_from data_buffer 0 (to_copy - copy_to_user to_copy);
      })
      else none

  unfoldable pub breader_read : ℕ → ℕ → Option ReadResult
  breader_read count ppos =
      if not (bit_and ppos 7 == 0)
      then some (refused ppos einval)
      else if start_of ppos == data_buffer_len
      then some (refused ppos (pos 0))
      else if ltb data_buffer_len (start_of ppos)
      then some (refused ppos einval)
      else if ltb count 8
      then some (refused ppos einval)
      else copy ppos (to_copy_of count)

  -- A process that asks for `count` bytes until a read returns no bytes or an error: how many bytes
  -- it has got, and what the last read returned. `none` if the fuel runs out or a read has no defined
  -- behaviour.
  unfoldable pub read_file : ℕ → ℕ → ℕ → ℕ → Option (ℕ × ℤ)
  read_file count ppos zero got = none
  read_file count ppos (suc fuel) got = elim (breader_read count ppos) [
    | none ↦ none
    | some r ↦ elim r.ret [
      | pos zero ↦ some (got, pos 0)
      | pos (suc n) ↦ read_file count r.ppos fuel (got + suc n)
      | negsuc n ↦ some (got, negsuc n)
    ]
  ]
