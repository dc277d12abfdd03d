-- ===== src/Client/Buffering/Bsystem/Draining.antt =====
-- The loop of `buffering_static_fini` in client/buffering/bsystem.c waits for finitely many steps of
-- `write_sample`.
use pmu_min_suite.Prelude.{ℕ, zero, suc, ◌+◌, ◌*◌, ◌≤◌, ◌<◌, ◌≡◌, ◌≢◌, arith, true, ◌⊎◌, inl, inr}
use pmu_min_suite.Prelude.Family.{total, total-update, total-positive}
use native.Mathlib.Decide.{dec_lt}
use pmu_min_suite.Client.Buffering.Bsystem.{
  Pc, idle, checked, counted, written, present, System, WriteStep, FiniStep, waiting, left,
  see_present, see_removing, refcount_inc, write_clist, refcount_dec, Step, writer, fini, Reach,
  here, later, Reach-trans, remove, spin, leave, fini_clist,
}
use pmu_min_suite.Client.Buffering.Bsystem.Safety.{
  loaded, writing, steps_left, system_usage_lem, removing_lem, Step-steps,
}

-- 1 for a step into a write, within one or out of one; a processor that sees that the module goes
-- makes none.
unfoldable pub in_write : {n : ℕ} {s t : System} → Step n s t → ℕ
in_write (writer i lt e (see_present h)) = 1
in_write (writer i lt e (see_removing h)) = 0
in_write (writer i lt e refcount_inc) = 1
in_write (writer i lt e write_clist) = 1
in_write (writer i lt e refcount_dec) = 1
in_write (fini st) = 0

-- How many such steps a run has.
unfoldable pub write_steps : {n : ℕ} {s t : System} → Reach n s t → ℕ
write_steps here = 0
write_steps (later r st) = write_steps r + in_write st

Step-shorter :
    {n : ℕ} {s t : System} (st : Step n s t)
    → s.removing ≡ true
    → in_write st + total steps_left n t.pc ≤ total steps_left n s.pc
unfolding in_write
Step-shorter {n} {s} (writer i lt e (see_present h)) on = cc
Step-shorter {n} {s} (writer i lt e (see_removing h)) on =
    ground (arith, total-update steps_left n s.pc i idle lt)
Step-shorter {n} {s} (writer i lt e refcount_inc) on =
    ground (arith, total-update steps_left n s.pc i counted lt)
Step-shorter {n} {s} (writer i lt e write_clist) on =
    ground (arith, total-update steps_left n s.pc i written lt)
Step-shorter {n} {s} (writer i lt e refcount_dec) on =
    ground (arith, total-update steps_left n s.pc i idle lt)
Step-shorter (fini remove) on = omega arith
Step-shorter (fini (spin h)) on = omega arith
Step-shorter (fini (leave h)) on = omega arith
Step-shorter (fini fini_clist) on = omega arith

Reach-shorter :
    {n : ℕ} {s t : System} (r : Reach n s t)
    → s.removing ≡ true
    → (write_steps r + total steps_left n t.pc ≤ total steps_left n s.pc) × (t.removing ≡ true)
unfolding write_steps
Reach-shorter here on = (omega arith, on)
Reach-shorter (later r st) on =
    let (le, on') = Reach-shorter r on in
    let le' = Step-shorter st on' in (omega arith, (Step-steps st on').1)

at_most : (n : ℕ) (pc : ℕ → Pc) → total steps_left n pc ≤ 3 * n
unfolding total
at_most zero pc = omega arith
at_most (suc n) pc = ground (arith, at_most n pc)

-- A processor in a write has its next step, whatever the others do.
advance :
    (s : System) (p : Pc)
    → 0 < writing p
    → (u : System) × (q : Pc) × WriteStep s p u q × (steps_left q < steps_left p)
advance s idle h = absurd (omega arith)
advance s checked h = absurd (omega arith)
advance s counted h = (_, _, write_clist, omega arith)
advance s written h = (_, _, refcount_dec, omega arith)

-- In every run from a state in which unloading was called, processors make at most 3 steps each, of
-- all 3 * n together, into, within and out of writes; and at its end `usage` is at most 1 and a step
-- leads unloading from its loop, or a processor is in a write and has its next step, which brings it nearer to the end of the
-- write, whatever the others do.
pub buffering_static_fini_lem :
    {n clist : ℕ} {s t : System}
    → Reach n (loaded clist) s
    → s.fini_pc ≢ present
    → (r : Reach n s t)
    → (write_steps r ≤ 3 * n)
      × (((t.usage ≤ 1) × FiniStep t waiting t left)
          ⊎ ((i : ℕ) × (i < n)
              × ((u : System) × (q : Pc) × WriteStep t (t.pc i) u q
                  × (steps_left q < steps_left (t.pc i)))))
buffering_static_fini_lem {n} {clist} {s} {t} r0 called r =
    let (le, on) = Reach-shorter r (removing_lem r0 called) in
    (
      omega (arith, at_most n s.pc),
      elim (dec_lt 0 (total writing n t.pc)) [
        | no quiet ↦ inl (omega (arith, usage), leave (omega (arith, usage)))
        | yes busy ↦
            let (i, lt, in_it) = total-positive writing n t.pc busy in
            inr (i, lt, advance t (t.pc i) in_it)
      ],
    )
  where
    usage : t.usage ≡ 1 + total writing n t.pc
    usage = system_usage_lem (Reach-trans r0 r)
