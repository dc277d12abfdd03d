-- ===== src/Breader/Raw/Copied.antt =====
-- Where breader/breader_raw.c reads from.
use pmu_min_suite.Prelude.{ℕ, ◌+◌, ◌-◌, ◌/◌, ◌%◌, ◌^◌, ◌≤◌, ◌<◌, ◌≡◌, some, bit_and, arith}
use pmu_min_suite.Prelude.Bits.{bit_and_mask}
use pmu_min_suite.Breader.{Words, data_buffer_size}
use pmu_min_suite.Breader.Raw.{ReadResult, start_of, bytes_from, breader_read}

-- The kernel passes on no count of 2 ^ 31 bytes or more, and no position behind it is reached here.
pub start_of_lem : (ppos : ℕ) → ppos < 2 ^ 34 → start_of ppos ≡ ppos / 8
start_of_lem ppos h = ground arith

pub aligned_lem : (ppos : ℕ) → bit_and ppos 7 ≡ ppos % 8
aligned_lem ppos = bit_and_mask 3 ppos

module _ (data_buffer : Words) (copy_to_user : ℕ → ℕ) where
  -- The result of a read does not depend on the position but by the position that it leaves: at all
  -- aligned positions within the buffer it gives the same bytes, those at the start of the buffer.
  copied-breader_read :
      (count ppos : ℕ) (r : ReadResult)
      → 8 ≤ count
      → count < 2 ^ 31
      → ppos % 8 ≡ 0
      → ppos < data_buffer_size
      → breader_read data_buffer copy_to_user count ppos ≡ some r
      → (r.copied ≡ bytes_from data_buffer 0 (count / 8 - copy_to_user (count / 8)))
        × (r.ppos ≡ ppos + (count / 8 - copy_to_user (count / 8)))
  unfolding breader_read
  copied-breader_read count ppos r h8 hc ha hp e =
      ground (arith, aligned_lem ppos, start_of_lem ppos)
