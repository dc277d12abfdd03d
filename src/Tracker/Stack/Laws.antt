-- ===== src/Tracker/Stack/Laws.antt =====
-- The operations of ptracker_stack.c one after the other, on one task and on several.
use pmu_min_suite.Prelude.{
  ℕ, ◌+◌, ◌/◌, ◌%◌, ◌^◌, ◌≤◌, ◌<◌, ◌≡◌, ◌≢◌, refl, true, false, ◌⊎◌, arith, pos, einval, ap,
  bit_xor, none, some, is_some, ◌↔◌,
}
use pmu_min_suite.Prelude.Family.{update}
use pmu_min_suite.Tracker.Task.{Task}
use pmu_min_suite.Tracker.Contract.{IsLive, IsCanonical}
use pmu_min_suite.Tracker.Stack.{
  Memory, crc_magic, last_entry_size, check_crc, build_ptr, magic_entry, any_bit, enabled_mask,
  patch_thread_stack, restore_thread_stack, get_magic_entry, get_patched_data, tracker_add,
  tracker_del, query_tracker, query_data_tracker,
}
use pmu_min_suite.Tracker.Stack.Words.{
  crc_of, crc_of-lt, check_crc_iff, any_bit-enabled, build_ptr_lem, magic_entry_lem,
}

pub check_crc-magic_entry : (d : ℕ) → check_crc (magic_entry d) ≡ true
check_crc-magic_entry d =
    ground (arith, check_crc_iff (magic_entry d), magic_entry_lem d, crc_of-lt d, same_crc)
  where
    low : magic_entry d % 2 ^ 14 ≡ d % 2 ^ 14
    low = omega (arith, magic_entry_lem d)

    same_crc : crc_of (magic_entry d) ≡ crc_of d
    same_crc = ap (λ t. bit_xor t crc_magic) low

pub any_bit-magic_entry : (d : ℕ) → any_bit (magic_entry d) enabled_mask ≡ true
any_bit-magic_entry d =
    ground (arith, any_bit-enabled (magic_entry d), magic_entry_lem d, crc_of-lt d)

-- A pointer in canonical form survives the packing.
pub build_ptr-magic_entry : (d : ℕ) → IsCanonical d → build_ptr (magic_entry d) ≡ d
build_ptr-magic_entry d h =
    ground (arith, build_ptr_lem (magic_entry d), magic_entry_lem d, crc_of-lt d)

entry_of_live : (t : Task) → IsLive t → last_entry_size t 8 ≡ some (t.stack + 8)
entry_of_live t h = ground arith

pub patch_lem :
    (m : Memory) (t : Task) (d : ℕ)
    → IsLive t
    → (tracker_add m t d).0 ≡ update m (t.stack + 8) (magic_entry d)
unfolding tracker_add patch_thread_stack
patch_lem m t d h = ground arith

pub get_magic_entry-add :
    (m : Memory) (t : Task) (d : ℕ)
    → IsLive t
    → get_magic_entry (tracker_add m t d).0 t ≡ some (t.stack + 8)
unfolding get_magic_entry
get_magic_entry-add m t d h =
    rw (patch_lem m t d h) (ground (arith, check_crc-magic_entry d, any_bit-magic_entry d))

-- An added task is tracked, and a pointer in canonical form that was added for it is what a query
-- of its data returns.
pub query-add :
    (m : Memory) (t : Task) (d : ℕ)
    → IsLive t
    → IsCanonical d
    → (query_tracker (tracker_add m t d).0 t ≡ true)
      × (query_data_tracker (tracker_add m t d).0 t ≡ d)
unfolding query_tracker query_data_tracker get_patched_data
query-add m t d h c =
    ground (arith, get_magic_entry-add m t d h, patch_lem m t d h, build_ptr-magic_entry d c)

-- A task is tracked exactly when it has a stack whose last entry has the enable bit set and
-- carries, in the bits 48 to 61, the check code of its low 14 bits.
pub query_iff :
    (m : Memory) (t : Task)
    → m (t.stack + 8) < 2 ^ 64
    → (query_tracker m t ≡ true) ↔ (
        (t.stack ≢ 0)
        × (m (t.stack + 8) / 2 ^ 48 % 2 ^ 14 ≡ bit_xor (m (t.stack + 8) % 2 ^ 14) 12)
        × (2 ^ 63 ≤ m (t.stack + 8)))
unfolding query_tracker get_magic_entry
query_iff m t h =
    ground (arith, check_crc_iff (m (t.stack + 8)), any_bit-enabled (m (t.stack + 8)) h)

zero_word : check_crc 0 ≡ false
unfolding check_crc
zero_word = refl

pub get_magic_entry-none :
    (m : Memory) (t : Task) → m (t.stack + 8) ≡ 0 → get_magic_entry m t ≡ none
unfolding get_magic_entry
get_magic_entry-none m t h = ground (arith, zero_word)

pub entry_has_stack : (m : Memory) (t : Task) → is_some (get_magic_entry m t) ≡ true → t.stack ≢ 0
unfolding get_magic_entry
entry_has_stack m t h = ground arith

-- A removed task is not tracked, whatever its entry held before.
pub query-del : (m : Memory) (t : Task) → t.addr ≢ 0 → query_tracker (tracker_del m t).0 t ≡ false
unfolding query_tracker tracker_del restore_thread_stack
query-del m t h =
    ground (arith, entry_has_stack m t, get_magic_entry-none (restore_thread_stack m t).0 t)

-- Removing returns the pointer that was added.
del-add :
    (m : Memory) (t : Task) (d : ℕ)
    → IsLive t
    → IsCanonical d
    → (tracker_del (tracker_add m t d).0 t).1 ≡ d
unfolding tracker_del get_patched_data
del-add m t d h c =
    ground (arith, get_magic_entry-add m t d h, patch_lem m t d h, build_ptr-magic_entry d c)

-- Adding and removing a task change no word of memory but the last entry of its stack.
pub add-frame : (m : Memory) (t : Task) (d a : ℕ) → t.stack + 8 ≢ a → (tracker_add m t d).0 a ≡ m a
unfolding tracker_add patch_thread_stack
add-frame m t d a h = ground arith

pub del-frame : (m : Memory) (t : Task) (a : ℕ) → t.stack + 8 ≢ a → (tracker_del m t).0 a ≡ m a
unfolding tracker_del restore_thread_stack
del-frame m t a h = ground arith

-- A query reads one word: it answers alike in memories that agree there.
pub query_same :
    (m n : Memory) (t : Task)
    → m (t.stack + 8) ≡ n (t.stack + 8)
    → (query_tracker m t ≡ query_tracker n t) × (query_data_tracker m t ≡ query_data_tracker n t)
unfolding query_tracker query_data_tracker get_patched_data get_magic_entry
query_same m n t h = ground arith

-- Without a task structure or without a stack nothing is written, and the result is still 0.
add-not_live :
    (m : Memory) (t : Task) (d : ℕ)
    → (t.addr ≡ 0) ⊎ (t.stack ≡ 0)
    → (tracker_add m t d ≡ (m, pos 0)) × ((patch_thread_stack m t d).1 ≡ einval)
unfolding tracker_add patch_thread_stack
add-not_live m t d h = ground arith
