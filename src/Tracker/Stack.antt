-- ===== src/Tracker/Stack.antt =====
-- ptracker_stack.c: the tracker that keeps its entry in the last word of a task's kernel stack.
-- A word of 64 bits is a number below 2 ^ 64, a shift to the left drops what leaves the word, and
-- `~m` is `2 ^ 64 - 1 - m`. Addresses are numbers and memory maps an address to a word.
mod Words
pub mod Laws
pub mod Map
use pmu_min_suite.Prelude.{
  ℕ, ◌+◌, ◌-◌, ◌*◌, ◌/◌, ◌%◌, ◌^◌, Bool, ◌||◌, not, Option, none, some, ◌==◌, if◌then◌else◌,
  bit_and, bit_or, bit_xor, ℤ, pos, einval, is_some,
}
use pmu_min_suite.Prelude.Family.{update}
use pmu_min_suite.Tracker.Task.{Task}

abbrev pub word_size : ℕ
word_size = 2 ^ 64

abbrev pub shl : ℕ → ℕ → ℕ
shl x k = x * 2 ^ k % word_size

abbrev pub shr : ℕ → ℕ → ℕ
shr x k = x / 2 ^ k

abbrev pub complement : ℕ → ℕ
complement x = word_size - 1 - x

abbrev pub ptr_bits : ℕ
ptr_bits = 48

abbrev pub ptr_thr_bit : ℕ
ptr_thr_bit = shl 1 (ptr_bits - 1)

abbrev pub ptr_used_mask : ℕ
ptr_used_mask = shl 1 ptr_bits - 1

abbrev pub ptr_free_mask : ℕ
ptr_free_mask = complement ptr_used_mask

abbrev pub ptr_crc_mask : ℕ
ptr_crc_mask = shl (shl 1 (64 - ptr_bits - 2) - 1) 48

abbrev pub ptr_ccb_mask : ℕ
ptr_ccb_mask = shl 1 (64 - ptr_bits - 2) - 1

abbrev pub process_mask : ℕ
process_mask = shl 1 62

abbrev pub enabled_mask : ℕ
enabled_mask = shl 1 63

abbrev pub crc_magic : ℕ
crc_magic = 0xc

-- `if (w & m)`
abbrev pub any_bit : ℕ → ℕ → Bool
any_bit w m = not (bit_and w m == 0)

pub check_crc : ℕ → Bool
check_crc ctl = bit_xor (bit_and ctl ptr_ccb_mask) crc_magic == shr (bit_and ctl ptr_crc_mask) 48

pub build_ptr : ℕ → ℕ
build_ptr ptr =
    if any_bit ptr ptr_thr_bit then bit_or ptr_free_mask ptr else bit_and ptr_used_mask ptr

abbrev pub Memory : Type 0
Memory = ℕ → ℕ

-- The address of the task's last entry, `none` for a NULL pointer.
abbrev pub last_entry_size : Task → ℕ → Option ℕ
last_entry_size task size = if task.stack == 0 then none else some (task.stack + size)

-- The word that `patch_thread_stack` builds, in the order of its statements.
pub magic_entry : ℕ → ℕ
magic_entry data_ptr =
    let used = bit_and data_ptr ptr_used_mask in
    let signed = bit_or used (shl (bit_xor (bit_and used ptr_ccb_mask) crc_magic) 48) in
    let unprocessed = bit_and signed (complement process_mask) in bit_or unprocessed enabled_mask

pub patch_thread_stack : Memory → Task → ℕ → Memory × ℤ
patch_thread_stack m task data_ptr =
    if task.addr == 0 then (m, einval) else elim (last_entry_size task 8) [
      | none ↦ (m, einval)
      | some last_entry ↦ (update m last_entry (magic_entry data_ptr), pos 0)
    ]

pub restore_thread_stack : Memory → Task → Memory × ℤ
restore_thread_stack m task =
    if task.addr == 0 then (m, einval) else elim (last_entry_size task 8) [
      | none ↦ (m, pos 0)
      | some last_entry ↦ (update m last_entry 0, pos 0)
    ]

-- The address of the entry, if it holds a valid one.
pub get_magic_entry : Memory → Task → Option ℕ
get_magic_entry m task = elim (last_entry_size task 8) [
  | none ↦ none
  | some last_entry ↦
      if not (check_crc (m last_entry)) || not (any_bit (m last_entry) enabled_mask)
      then none
      else some last_entry
]

-- NULL is 0.
pub get_patched_data : Memory → Task → ℕ
get_patched_data m task = elim (get_magic_entry m task) [
  | none ↦ 0
  | some entry ↦ build_ptr (m entry)
]

pub tracker_add : Memory → Task → ℕ → Memory × ℤ
tracker_add m task data_ptr = ((patch_thread_stack m task data_ptr).0, pos 0)

pub tracker_del : Memory → Task → Memory × ℕ
tracker_del m task = elim (get_magic_entry m task) [
  | none ↦ (m, 0)
  | some entry ↦ ((restore_thread_stack m task).0, get_patched_data m task)
]

pub query_tracker : Memory → Task → Bool
query_tracker m task = is_some (get_magic_entry m task)

pub query_data_tracker : Memory → Task → ℕ
query_data_tracker m task = get_patched_data m task
