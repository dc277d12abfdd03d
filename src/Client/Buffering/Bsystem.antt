-- ===== src/Client/Buffering/Bsystem.antt =====
-- client/buffering/bsystem.c: one clist for the whole system, written on many processors while the
-- module goes, one access to a shared variable at a time. The interrupt that writes a sample is not
-- interrupted by another, so a processor is in one write at a time.
pub mod Safety
pub mod Draining
use pmu_min_suite.Prelude.{
  ℕ, ◌+◌, ◌-◌, ◌/◌, ◌≤◌, ◌<◌, ◌≡◌, Bool, true, false, Option, none, ℤ, pos, is_some, if◌then◌else◌,
}
use pmu_min_suite.Prelude.Family.{update}
use pmu_min_suite.Client.Buffering.{global_buffer_size}

-- Where a processor stands in `write_sample`.
pub data Pc : Type 0 where
  idle : Pc  -- in no write
  checked : Pc  -- has read `removing` as false
  counted : Pc  -- has counted itself in `usage`; `write_clist` is next
  written : Pc  -- `write_clist` has returned

-- Where `buffering_static_fini` stands.
pub data FiniPc : Type 0 where
  present : FiniPc  -- not called
  waiting : FiniPc  -- has set `removing`; the loop on `usage`
  left : FiniPc  -- has left the loop
  finished : FiniPc  -- has returned

-- `system_clist` is NULL, or an address; `freed` is whether the clist there was taken back.
pub record System : Type 0 where
  pub usage : ℕ
  pub removing : Bool
  pub system_clist : Option ℕ
  pub freed : Bool
  pub fini_pc : FiniPc
  pub pc : ℕ → Pc

-- The module before it is loaded.
abbrev pub unloaded : System
unloaded = record {
  usage = 1;
  removing = false;
  system_clist = none;
  freed = false;
  fini_pc = present;
  pc = λ i. idle;
}

unfoldable pub buffering_static_init : (ℕ → ℕ → Option ℕ) → ℕ → System → System × ℤ
buffering_static_init init_clist entry_size s =
    let clist = init_clist (global_buffer_size / entry_size) entry_size in
    (record s { system_clist = clist }, if is_some clist then pos 0 else pos 1)

-- One step of `write_sample` of a processor, from its place to the next.
pub data WriteStep (s : System) : Pc → System → Pc → Type 0 where
  see_present : s.removing ≡ false → WriteStep s idle s checked
  see_removing : s.removing ≡ true → WriteStep s idle s idle
  refcount_inc : WriteStep s checked (record s { usage = s.usage + 1 }) counted
  write_clist : WriteStep s counted s written
  refcount_dec : WriteStep s written (record s { usage = s.usage - 1 }) idle

-- One step of `buffering_static_fini`.
pub data FiniStep (s : System) : FiniPc → System → FiniPc → Type 0 where
  remove : FiniStep s present (record s { removing = true }) waiting
  spin : 1 < s.usage → FiniStep s waiting s waiting
  leave : s.usage ≤ 1 → FiniStep s waiting s left
  fini_clist : FiniStep s left (record s { freed = true }) finished

-- `n` processors and the unloading, interleaved in any order.
pub data Step (n : ℕ) (s : System) : System → Type 0 where
  writer :
      (i : ℕ) {t : System} {p q : Pc}
      → i < n
      → s.pc i ≡ p
      → WriteStep s p t q
      → Step n s (record t { pc = update s.pc i q })
  fini : {t : System} {p : FiniPc} → FiniStep s s.fini_pc t p → Step n s (record t { fini_pc = p })

pub data Reach (n : ℕ) (s : System) : System → Type 0 where
  here : Reach n s s
  later : {t u : System} → Reach n s t → Step n t u → Reach n s u

pub Reach-trans : {n : ℕ} {s t u : System} → Reach n s t → Reach n t u → Reach n s u
Reach-trans r here = r
Reach-trans r (later q st) = later (Reach-trans r q) st
