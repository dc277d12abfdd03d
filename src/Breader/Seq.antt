-- ===== src/Breader/Seq.antt =====
-- breader/breader_seq.c: the file that shows the buffer in rows, by the kernel's sequential files. A
-- pointer into the buffer is the index of a word. `none` is a row that reads behind the buffer.
pub mod Walk
use pmu_min_suite.Prelude.{
  ℕ, zero, suc, ◌+◌, Option, none, some, if◌then◌else◌, ltb, leb, List, [], ◌∷◌,
}
use pmu_min_suite.Breader.{Words, data_buffer_len}

-- `__breader_seq_next`
abbrev pub seq_at : ℕ → Option ℕ
seq_at pos = if leb data_buffer_len pos then none else some pos

abbrev pub breader_seq_start : ℕ → Option ℕ
breader_seq_start pos = seq_at pos

-- The new position, and the pointer.
abbrev pub breader_seq_next : ℕ → ℕ × Option ℕ
breader_seq_next pos = (pos + 1, seq_at (pos + 1))

-- The words that a row shows, by the loop over `n` of them.
abbrev pub row : Words → ℕ → ℕ → List ℕ
row data_buffer v zero = []
row data_buffer v (suc n) = data_buffer v ∷ row data_buffer (v + 1) n

unfoldable pub breader_seq_show : Words → ℕ → Option (List ℕ)
breader_seq_show data_buffer v =
    if leb (v + 8) data_buffer_len then some (row data_buffer v 8) else none

-- The rounds of the kernel's `seq_read` from an entry on: show it, and go to the next until there is
-- none. `none` if the fuel runs out.
unfoldable pub show_from : Words → ℕ → ℕ → Option ℕ → Option (List (Option (List ℕ)))
show_from data_buffer fuel pos none = some []
show_from data_buffer zero pos (some v) = none
show_from data_buffer (suc fuel) pos (some v) =
    elim (show_from data_buffer fuel (breader_seq_next pos).0 (breader_seq_next pos).1) [
      | none ↦ none
      | some rows ↦ some (breader_seq_show data_buffer v ∷ rows)
    ]

-- A whole read from a position.
unfoldable pub seq_read : Words → ℕ → ℕ → Option (List (Option (List ℕ)))
seq_read data_buffer fuel pos = show_from data_buffer fuel pos (breader_seq_start pos)
