-- ===== src/Breader/Seq/Walk.antt =====
-- The rows that a read of the file of breader/breader_seq.c goes through.
use pmu_min_suite.Prelude.{
  ℕ, zero, suc, ◌+◌, ◌-◌, ◌≤◌, ◌<◌, ◌≡◌, ◌↔◌, Option, none, some, List, [], ◌∷◌, arith,
}
use pmu_min_suite.Breader.{Words, data_buffer_len}
use pmu_min_suite.Breader.Seq.{seq_at, breader_seq_show, show_from, seq_read}

-- The rows of `n` entries from `pos` on.
abbrev pub rows_of : Words → ℕ → ℕ → List (Option (List ℕ))
rows_of data_buffer pos zero = []
rows_of data_buffer pos (suc n) = breader_seq_show data_buffer pos ∷ rows_of data_buffer (pos + 1) n

show_from_lem :
    (data_buffer : Words) (fuel left pos : ℕ)
    → pos + left ≡ data_buffer_len
    → left ≤ fuel
    → show_from data_buffer fuel pos (seq_at pos) ≡ some (rows_of data_buffer pos left)
unfolding show_from
show_from_lem data_buffer zero zero pos e h = ground arith
show_from_lem data_buffer (suc fuel) zero pos e h = ground arith
show_from_lem data_buffer zero (suc left) pos e h = absurd (omega arith)
show_from_lem data_buffer (suc fuel) (suc left) pos e h =
    ground (arith, show_from_lem data_buffer fuel left (pos + 1))

-- With fuel for the entries from `pos` to the end of the buffer, a read from `pos` ends and goes
-- through exactly these entries, each once and in order; the row of an entry reads behind the buffer
-- exactly for the last 7 entries.
pub seq_read_lem :
    (data_buffer : Words) (fuel pos : ℕ)
    → pos ≤ data_buffer_len
    → data_buffer_len ≤ pos + fuel
    → (seq_read data_buffer fuel pos ≡ some (rows_of data_buffer pos (data_buffer_len - pos)))
      × ((v : ℕ) → (breader_seq_show data_buffer v ≡ none) ↔ (data_buffer_len < v + 8))
unfolding seq_read breader_seq_show
seq_read_lem data_buffer fuel pos h enough = (
  show_from_lem data_buffer fuel (data_buffer_len - pos) pos (omega arith) (omega arith),
  λ v. ground arith,
)
