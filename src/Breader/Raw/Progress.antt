-- ===== src/Breader/Raw/Progress.antt =====
-- How a process that reads the file of breader/breader_raw.c gets on.
use pmu_min_suite.Prelude.{
  ℕ, zero, suc, ◌+◌, ◌*◌, ◌/◌, ◌%◌, ◌^◌, ◌≤◌, ◌<◌, ◌≡◌, ◌≢◌, refl, some, ◌==◌, if◌then◌else◌, ℤ,
  pos, einval, arith, ◌∙◌,
}
use native.Mathlib.Decide.{dec_lt}
use native.Mathlib.Nat.{zero-mul, zero-add, add-zero}
use pmu_min_suite.Breader.{Words, data_buffer_size}
use pmu_min_suite.Breader.Raw.{refused, bytes_from, breader_read, read_file}
use pmu_min_suite.Breader.Raw.Copied.{start_of_lem, aligned_lem}

-- With a `copy_to_user` that copies everything.
module _ (data_buffer : Words) where
  abbrev pub all : ℕ → ℕ
  all n = 0

  read_within :
      (chunk count ppos : ℕ)
      → count / 8 ≡ chunk
      → 1 ≤ chunk
      → chunk ≤ data_buffer_size
      → ppos % 8 ≡ 0
      → ppos < data_buffer_size
      → breader_read data_buffer all count ppos
        ≡ some (record {
          ppos = ppos + chunk;
          ret = pos chunk;
          copied = bytes_from data_buffer 0 chunk;
        })
  unfolding breader_read
  read_within chunk count ppos e h1 hc ha hp = ground (arith, aligned_lem ppos, start_of_lem ppos)

  -- What a read returns behind the last byte.
  last_ret : ℕ → ℤ
  last_ret ppos = if ppos == data_buffer_size then pos 0 else einval

  read_behind :
      (count ppos : ℕ)
      → ppos % 8 ≡ 0
      → data_buffer_size ≤ ppos
      → ppos < 2 ^ 34
      → breader_read data_buffer all count ppos ≡ some (refused ppos (last_ret ppos))
  unfolding breader_read last_ret
  read_behind count ppos ha h hp = ground (arith, aligned_lem ppos, start_of_lem ppos)

  read_askew :
      (count ppos : ℕ)
      → ppos % 8 ≢ 0
      → breader_read data_buffer all count ppos ≡ some (refused ppos einval)
  unfolding breader_read
  read_askew count ppos ha = ground (arith, aligned_lem ppos)

  file_step :
      (count chunk ppos fuel got : ℕ)
      → breader_read data_buffer all count ppos
        ≡ some (record {
          ppos = ppos + suc chunk;
          ret = pos (suc chunk);
          copied = bytes_from data_buffer 0 (suc chunk);
        })
      → read_file data_buffer all count ppos (suc fuel) got
        ≡ read_file data_buffer all count (ppos + suc chunk) fuel (got + suc chunk)
  unfolding read_file
  file_step count chunk ppos fuel got e = rw (e, read_file) refl

  file_end :
      (count ppos fuel got : ℕ)
      → data_buffer_size ≤ ppos
      → ppos % 8 ≡ 0
      → ppos < 2 ^ 34
      → read_file data_buffer all count ppos (suc fuel) got ≡ some (got, last_ret ppos)
  unfolding read_file last_ret
  file_end count ppos fuel got h ha hp = ground (arith, read_behind count ppos ha h hp)

  -- The reads from `ppos` to the end: `n` more full ones, and the last.
  Ends : ℕ → ℕ → ℕ → ℕ → ℕ → Type 0
  Ends count chunk ppos fuel got =
      (n : ℕ) × (data_buffer_size ≤ ppos + n * chunk)
      × (ppos + n * chunk < data_buffer_size + chunk)
      × (read_file data_buffer all count ppos fuel got
          ≡ some (got + n * chunk, last_ret (ppos + n * chunk)))

  end_here :
      (count chunk ppos fuel got : ℕ)
      → ppos % 8 ≡ 0
      → data_buffer_size ≤ ppos
      → ppos < data_buffer_size + chunk
      → chunk ≤ data_buffer_size
      → Ends count chunk ppos (suc fuel) got
  unfolding Ends
  end_here count chunk ppos fuel got ha h hp hc = (
    0,
    omega arith,
    omega arith,
    file_end count ppos fuel got h ha (omega arith)
        ∙ rw (zero-mul chunk, add-zero got, add-zero ppos) refl,
  )

  one_more : (k n c : ℕ) → k + suc c + n * suc c ≡ k + suc n * suc c
  one_more k n c = omega arith

  end_later :
      (count chunk ppos fuel got : ℕ)
      → count / 8 ≡ suc chunk
      → suc chunk ≤ data_buffer_size
      → ppos % 8 ≡ 0
      → ppos < data_buffer_size
      → Ends count (suc chunk) (ppos + suc chunk) fuel (got + suc chunk)
      → Ends count (suc chunk) ppos (suc fuel) got
  unfolding Ends
  end_later count chunk ppos fuel got e hc ha hp (n, above, below, eq) = (
    suc n,
    omega arith,
    omega arith,
    file_step count chunk ppos fuel got
          (read_within (suc chunk) count ppos e (omega arith) hc ha hp)
        ∙ eq
        ∙ rw (one_more got n chunk, one_more ppos n chunk) refl,
  )

  read_rounds :
      (count chunk ppos fuel got : ℕ)
      → count / 8 ≡ suc chunk
      → suc chunk % 8 ≡ 0
      → suc chunk ≤ data_buffer_size
      → ppos % 8 ≡ 0
      → ppos < data_buffer_size + suc chunk
      → data_buffer_size ≤ ppos + fuel
      → Ends count (suc chunk) ppos (suc fuel) got
  read_rounds count chunk ppos zero got e hc hs ha hp hf =
      end_here count (suc chunk) ppos zero got ha (omega arith) hp hs
  read_rounds count chunk ppos (suc fuel) got e hc hs ha hp hf =
      elim (dec_lt ppos data_buffer_size) [
        | yes lt ↦ end_later count chunk ppos (suc fuel) got e hs ha lt (
            read_rounds count chunk (ppos + suc chunk) fuel (got + suc chunk) e hc hs (omega arith)
              (omega arith) (omega arith))
        | no ge ↦ end_here count (suc chunk) ppos (suc fuel) got ha (omega arith) hp hs
      ]

  from_start :
      (count chunk fuel : ℕ)
      → count / 8 ≡ chunk
      → 1 ≤ chunk
      → chunk % 8 ≡ 0
      → chunk ≤ data_buffer_size
      → data_buffer_size < fuel
      → Ends count chunk 0 fuel 0
  from_start count zero fuel e h1 hm hc hf = absurd (omega arith)
  from_start count (suc chunk) zero e h1 hm hc hf = absurd (omega arith)
  from_start count (suc chunk) (suc fuel) e h1 hm hc hf =
      read_rounds count chunk 0 fuel 0 e hm hc refl (omega arith) (omega arith)

  -- A process that reads from the start and asks each time for a number of bytes that is a multiple
  -- of 64 and not more than 8 times the buffer comes to an end: it has then got, an eighth of that
  -- number at a time, as many bytes as the buffer has or the next multiple of that eighth, and the
  -- last read returns 0 exactly if this is the size of the buffer, and else -EINVAL.
  pub read_file_lem :
      (count fuel : ℕ)
      → 1 ≤ count
      → count % 64 ≡ 0
      → count / 8 ≤ data_buffer_size
      → data_buffer_size < fuel
      → (n : ℕ) × (data_buffer_size ≤ n * (count / 8))
        × (n * (count / 8) < data_buffer_size + count / 8)
        × (read_file data_buffer all count 0 fuel 0
            ≡ some (n * (count / 8), if n * (count / 8) == data_buffer_size then pos 0 else einval))
  unfolding Ends last_ret
  read_file_lem count fuel h1 hm hc hf =
      let (n, above, below, e) =
        from_start count (count / 8) fuel refl (omega arith) (omega arith) hc hf in
      (n, omega arith, omega arith, e ∙ rw (zero-add (n * (count / 8))) refl)

  -- If a process asks for another number of bytes, at least 8, so that an eighth of it is not a
  -- multiple of 8, its second read returns -EINVAL.
  read_file-stalls :
      (count fuel : ℕ)
      → 8 ≤ count
      → count / 8 % 8 ≢ 0
      → count / 8 ≤ data_buffer_size
      → 2 ≤ fuel
      → read_file data_buffer all count 0 fuel 0 ≡ some (count / 8, einval)
  unfolding read_file
  read_file-stalls count zero h8 ha hc hf = absurd (omega arith)
  read_file-stalls count (suc zero) h8 ha hc hf = absurd (omega arith)
  read_file-stalls count (suc (suc fuel)) h8 ha hc hf =
      ground (arith, read_within (count / 8) count 0 refl, read_askew count (count / 8))
