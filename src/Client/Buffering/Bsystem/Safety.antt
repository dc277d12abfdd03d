-- ===== src/Client/Buffering/Bsystem/Safety.antt =====
-- The counter `usage` of client/buffering/bsystem.c, and the processors that are in a write.
use pmu_min_suite.Prelude.{ℕ, ◌+◌, ◌≤◌, ◌<◌, ◌≡◌, ◌≢◌, refl, arith, true, some, ap, ◌∙◌}
use pmu_min_suite.Prelude.Family.{
  update, update_self, total, total-update, weight-le-total, total-eq-zero,
}
use pmu_min_suite.Client.Buffering.Bsystem.{
  Pc, idle, checked, counted, written, finished, FiniPc, FiniStep, present, waiting, left, System,
  WriteStep, see_present, see_removing, refcount_inc, write_clist, refcount_dec, remove, spin,
  leave, fini_clist, Step, writer, fini, Reach, here, later, unloaded,
}

-- The module after loading.
abbrev pub loaded : ℕ → System
loaded clist = record unloaded { system_clist = some clist }

-- 1 for a processor that is counted in `usage`.
abbrev pub writing : Pc → ℕ
writing counted = 1
writing written = 1
writing _ = 0

-- The steps that a processor has to its next idle place.
abbrev pub steps_left : Pc → ℕ
steps_left idle = 0
steps_left checked = 3
steps_left counted = 2
steps_left written = 1

-- `usage` is one more than the number of processors in a write.
abbrev pub IsCounted : ℕ → System → Type 0
IsCounted n s = s.usage ≡ 1 + total writing n s.pc

writer-counts :
    {n : ℕ} {s t : System} {p q : Pc} (i : ℕ)
    → i < n
    → s.pc i ≡ p
    → WriteStep s p t q
    → IsCounted n s
    → t.usage ≡ 1 + total writing n (update s.pc i q)
writer-counts {n} {s} i lt e (see_present h) c =
    ground (arith, total-update writing n s.pc i checked lt)
writer-counts {n} {s} i lt e (see_removing h) c =
    ground (arith, total-update writing n s.pc i idle lt)
writer-counts {n} {s} i lt e refcount_inc c =
    ground (arith, total-update writing n s.pc i counted lt)
writer-counts {n} {s} i lt e write_clist c =
    ground (arith, total-update writing n s.pc i written lt)
writer-counts {n} {s} i lt e refcount_dec c = ground (arith, total-update writing n s.pc i idle lt)

-- Every step keeps the count.
Step-IsCounted : {n : ℕ} {s t : System} → Step n s t → IsCounted n s → IsCounted n t
Step-IsCounted (writer i lt e h) c = writer-counts i lt e h c
Step-IsCounted (fini remove) c = c
Step-IsCounted (fini (spin h)) c = c
Step-IsCounted (fini (leave h)) c = c
Step-IsCounted (fini fini_clist) c = c

Reach-IsCounted : {n : ℕ} {s t : System} → IsCounted n s → Reach n s t → IsCounted n t
Reach-IsCounted c here = c
Reach-IsCounted c (later r st) = Step-IsCounted st (Reach-IsCounted c r)

-- In every state that is reached from loading, `usage` is one more than the number of processors
-- between the increment and the decrement of write_sample.
pub system_usage_lem :
    {n clist : ℕ} {s : System} → Reach n (loaded clist) s → s.usage ≡ 1 + total writing n s.pc
system_usage_lem {n} {clist} r =
    Reach-IsCounted (omega (arith, total-eq-zero writing n (loaded clist).pc (λ i lt. refl))) r

writer-steps :
    {n : ℕ} {s t : System} {p q : Pc} (i : ℕ)
    → i < n
    → s.pc i ≡ p
    → WriteStep s p t q
    → s.removing ≡ true
    → (total steps_left n (update s.pc i q) ≤ total steps_left n s.pc) × (t.removing ≡ true)
writer-steps {n} {s} i lt e (see_present h) u =
    ground (arith, total-update steps_left n s.pc i checked lt)
writer-steps {n} {s} i lt e (see_removing h) u =
    ground (arith, total-update steps_left n s.pc i idle lt)
writer-steps {n} {s} i lt e refcount_inc u =
    ground (arith, total-update steps_left n s.pc i counted lt)
writer-steps {n} {s} i lt e write_clist u =
    ground (arith, total-update steps_left n s.pc i written lt)
writer-steps {n} {s} i lt e refcount_dec u =
    ground (arith, total-update steps_left n s.pc i idle lt)

pub Step-steps :
    {n : ℕ} {s t : System}
    → Step n s t
    → s.removing ≡ true
    → (total steps_left n t.pc ≤ total steps_left n s.pc) × (t.removing ≡ true)
Step-steps (writer i lt e h) u = writer-steps i lt e h u
Step-steps (fini remove) u = (omega arith, refl)
Step-steps (fini (spin h)) u = (omega arith, u)
Step-steps (fini (leave h)) u = (omega arith, u)
Step-steps (fini fini_clist) u = (omega arith, u)

Reach-steps :
    {n : ℕ} {s t : System}
    → s.removing ≡ true
    → Reach n s t
    → (total steps_left n t.pc ≤ total steps_left n s.pc) × (t.removing ≡ true)
Reach-steps u here = (omega arith, u)
Reach-steps u (later r st) =
    let (le, on) = Reach-steps u r in let (le', on') = Step-steps st on in (omega arith, on')

-- `removing` is set once unloading was called.
IsRemoving : System → Type 0
IsRemoving s = s.fini_pc ≢ present → s.removing ≡ true

FiniStep-removing :
    {s t : System} {p q : FiniPc}
    → FiniStep s p t q
    → (p ≢ present → s.removing ≡ true)
    → t.removing ≡ true
FiniStep-removing remove h = refl
FiniStep-removing (spin u) h = h (λ e. cc)
FiniStep-removing (leave u) h = h (λ e. cc)
FiniStep-removing fini_clist h = h (λ e. cc)

Step-IsRemoving : {n : ℕ} {s t : System} → Step n s t → IsRemoving s → IsRemoving t
unfolding IsRemoving
Step-IsRemoving (writer i lt e (see_present h)) k = k
Step-IsRemoving (writer i lt e (see_removing h)) k = k
Step-IsRemoving (writer i lt e refcount_inc) k = k
Step-IsRemoving (writer i lt e write_clist) k = k
Step-IsRemoving (writer i lt e refcount_dec) k = k
Step-IsRemoving (fini st) k = λ ne. FiniStep-removing st k

Reach-IsRemoving : {n : ℕ} {s t : System} → IsRemoving s → Reach n s t → IsRemoving t
Reach-IsRemoving k here = k
Reach-IsRemoving k (later r st) = Step-IsRemoving st (Reach-IsRemoving k r)

-- In every state that is reached with unloading called, `removing` is set.
pub removing_lem :
    {n clist : ℕ} {s : System} → Reach n (loaded clist) s → s.fini_pc ≢ present → s.removing ≡ true
unfolding IsRemoving
removing_lem {clist} r called = Reach-IsRemoving at_start r called
  where
    at_start : IsRemoving (loaded clist)
    at_start ne = absurd (ne refl)

-- The step out of the loop is taken with `usage` at most 1, and changes neither the processors nor
-- `removing`.
leave-step :
    {s t : System}
    → FiniStep s waiting t left
    → (s.usage ≤ 1) × ((t.pc ≡ s.pc) × (t.removing ≡ s.removing))
leave-step (leave h) = (h, (refl, refl))

-- If unloading takes the step out of its loop in a state in which no processor stands between the
-- test of `removing` and the count, then no processor is in a write from then on.
pub leave-safe :
    {n clist : ℕ} {s s' t : System}
    → Reach n (loaded clist) s
    → s.fini_pc ≡ waiting
    → FiniStep s waiting s' left
    → ((i : ℕ) → i < n → s.pc i ≢ checked)
    → Reach n (record s' { fini_pc = left }) t
    → (i : ℕ) → i < n
    → t.pc i ≡ idle
leave-safe {n} {clist} {s} {s'} {t} r at_loop leaves none_checked later_steps i lt =
    let (unused, (same_pc, same_flag)) = leave-step leaves in
    let on : s'.removing ≡ true = same_flag ∙ removing_lem r (λ e. cc) in
    let none_left : total steps_left n s'.pc ≡ 0 =
      ap (λ (pc : ℕ → Pc). total steps_left n pc) same_pc
      ∙ total-eq-zero steps_left n s.pc (unbound unused) in
    ground
      (arith, (Reach-steps on later_steps).0, weight-le-total steps_left n t.pc i lt, none_left)
  where
    unbound : s.usage ≤ 1 → (j : ℕ) → j < n → steps_left (s.pc j) ≡ 0
    unbound u j l =
        ground (arith, system_usage_lem r, weight-le-total writing n s.pc j l, none_checked j l)

-- The window between the test and the count is open: every processor can come to write to the clist
-- after it was freed.
late_write :
    (n clist i : ℕ)
    → i < n
    → (t : System) × Reach n (loaded clist) t
      × (t.fini_pc ≡ finished)
      × (t.freed ≡ true)
      × (t.pc i ≡ counted)
late_write n clist i lt = (
  _,
  later
      (later
        (later (later (later here (writer i lt refl (see_present refl))) (fini remove))
          (fini (leave (omega arith))))
        (fini fini_clist))
      (writer i lt (update_self (loaded clist).pc i checked) refcount_inc),
  refl,
  refl,
  update_self (update (loaded clist).pc i checked) i counted,
)
