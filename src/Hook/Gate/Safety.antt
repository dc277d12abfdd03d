-- ===== src/Hook/Gate/Safety.antt =====
-- The counter `usage` of system_hook.c, and the processors that are in a callback.
use pmu_min_suite.Prelude.{ℕ, ◌+◌, ◌≤◌, ◌<◌, ◌≡◌, ◌≢◌, refl, arith, ap, ◌∙◌}
use pmu_min_suite.Prelude.Family.{update, total, total-update, weight-le-total, total-eq-zero}
use pmu_min_suite.Hook.Gate.{
  ExitPc, live, Pc, idle, checked, admitted, inside, draining, drained, System, started,
  HandlerStep, see_enabled, see_disabled, see_mounted, see_unmounting, count_in, count_out,
  ExitStep, raise, disable, spin, drain, finish, Step, handler, exit, client, Reach, here, later,
}

-- 1 for a processor in a callback.
abbrev pub running : Pc → ℕ
running inside = 1
running _ = 0

-- 1 for a processor that is in a callback or has passed both tests before it.
abbrev pub bound : Pc → ℕ
bound inside = 1
bound admitted = 1
bound _ = 0

-- `usage` is one more than the number of processors in a callback.
abbrev pub IsCounted : ℕ → System → Type 0
IsCounted n s = s.usage ≡ 1 + total running n s.pc

handler-counts :
    {n : ℕ} {s t : System} {p q : Pc} (i : ℕ)
    → i < n
    → s.pc i ≡ p
    → HandlerStep s p t q
    → IsCounted n s
    → t.usage ≡ 1 + total running n (update s.pc i q)
handler-counts {n} {s} i lt e (see_enabled h) c =
    ground (arith, total-update running n s.pc i checked lt)
handler-counts {n} {s} i lt e (see_disabled h) c =
    ground (arith, total-update running n s.pc i idle lt)
handler-counts {n} {s} i lt e (see_mounted h) c =
    ground (arith, total-update running n s.pc i admitted lt)
handler-counts {n} {s} i lt e (see_unmounting h) c =
    ground (arith, total-update running n s.pc i idle lt)
handler-counts {n} {s} i lt e count_in c = ground (arith, total-update running n s.pc i inside lt)
handler-counts {n} {s} i lt e count_out c = ground (arith, total-update running n s.pc i idle lt)

-- Every step keeps the count.
pub Step-IsCounted : {n : ℕ} {s t : System} → Step n s t → IsCounted n s → IsCounted n t
Step-IsCounted (handler i lt e h) c = handler-counts i lt e h c
Step-IsCounted (exit (raise a b)) c = c
Step-IsCounted (exit disable) c = c
Step-IsCounted (exit (spin h)) c = c
Step-IsCounted (exit (drain h)) c = c
Step-IsCounted (exit finish) c = c
Step-IsCounted (client b) c = c

Reach-IsCounted : {n : ℕ} {s t : System} → IsCounted n s → Reach n s t → IsCounted n t
Reach-IsCounted c here = c
Reach-IsCounted c (later r st) = Step-IsCounted st (Reach-IsCounted c r)

started-IsCounted : (n : ℕ) → IsCounted n started
started-IsCounted n = omega (arith, total-eq-zero running n started.pc (λ i lt. refl))

-- In every reachable state `usage` is one more than the number of processors in a callback.
pub usage_lem : {n : ℕ} {s : System} → Reach n started s → s.usage ≡ 1 + total running n s.pc
usage_lem {n} r = Reach-IsCounted (started-IsCounted n) r

handler-bound :
    {n : ℕ} {s t : System} {p q : Pc} (i : ℕ)
    → i < n
    → s.pc i ≡ p
    → HandlerStep s p t q
    → 1 < s.unmounting
    → (total bound n (update s.pc i q) ≤ total bound n s.pc) × (t.unmounting ≡ s.unmounting)
handler-bound {n} {s} i lt e (see_enabled h) u =
    ground (arith, total-update bound n s.pc i checked lt)
handler-bound {n} {s} i lt e (see_disabled h) u =
    ground (arith, total-update bound n s.pc i idle lt)
handler-bound {n} {s} i lt e (see_mounted h) u = absurd (omega arith)
handler-bound {n} {s} i lt e (see_unmounting h) u =
    ground (arith, total-update bound n s.pc i idle lt)
handler-bound {n} {s} i lt e count_in u = ground (arith, total-update bound n s.pc i inside lt)
handler-bound {n} {s} i lt e count_out u = ground (arith, total-update bound n s.pc i idle lt)

-- Once `unmounting` is raised it stays so, and the processors that are in a callback or bound for
-- one do not grow in number, whatever clients do with the enable switch.
Step-bound :
    {n : ℕ} {s t : System}
    → Step n s t
    → 1 < s.unmounting
    → (total bound n t.pc ≤ total bound n s.pc) × (1 < t.unmounting)
Step-bound (handler i lt e h) u = omega (arith, handler-bound i lt e h u)
Step-bound (exit (raise a b)) u = omega arith
Step-bound (exit disable) u = omega arith
Step-bound (exit (spin h)) u = omega arith
Step-bound (exit (drain h)) u = omega arith
Step-bound (exit finish) u = omega arith
Step-bound (client b) u = omega arith

Reach-bound :
    {n : ℕ} {s t : System}
    → 1 < s.unmounting
    → Reach n s t
    → (total bound n t.pc ≤ total bound n s.pc) × (1 < t.unmounting)
Reach-bound u here = omega arith
Reach-bound u (later r st) = let ih = Reach-bound u r in omega (arith, ih, Step-bound st ih.1)

-- `unmounting` is raised once the exit function was called.
IsRaised : System → Type 0
IsRaised s = s.exit_pc ≢ live → 1 < s.unmounting

ExitStep-raised :
    {s t : System} {p q : ExitPc}
    → ExitStep s p t q
    → (p ≢ live → 1 < s.unmounting)
    → 1 < t.unmounting
ExitStep-raised (raise a b) h = omega arith
ExitStep-raised disable h = h (λ e. cc)
ExitStep-raised (spin u) h = h (λ e. cc)
ExitStep-raised (drain u) h = h (λ e. cc)
ExitStep-raised finish h = h (λ e. cc)

Step-IsRaised : {n : ℕ} {s t : System} → Step n s t → IsRaised s → IsRaised t
unfolding IsRaised
Step-IsRaised (handler i lt e (see_enabled h)) k = k
Step-IsRaised (handler i lt e (see_disabled h)) k = k
Step-IsRaised (handler i lt e (see_mounted h)) k = k
Step-IsRaised (handler i lt e (see_unmounting h)) k = k
Step-IsRaised (handler i lt e count_in) k = k
Step-IsRaised (handler i lt e count_out) k = k
Step-IsRaised (exit st) k = λ ne. ExitStep-raised st k
Step-IsRaised (client b) k = k

Reach-IsRaised : {n : ℕ} {s t : System} → IsRaised s → Reach n s t → IsRaised t
Reach-IsRaised k here = k
Reach-IsRaised k (later r st) = Step-IsRaised st (Reach-IsRaised k r)

started-IsRaised : IsRaised started
unfolding IsRaised
started-IsRaised ne = absurd (ne refl)

-- The step out of the loop is taken with `usage` at most 1, and changes neither the processors nor
-- `unmounting`.
drain-step :
    {s t : System}
    → ExitStep s draining t drained
    → (s.usage ≤ 1) × ((t.pc ≡ s.pc) × (t.unmounting ≡ s.unmounting))
drain-step (drain h) = (h, (refl, refl))

-- If the exit function takes the step out of its loop in a state in which no processor stands between
-- the two tests and the count, then no processor is in a callback from then on.
pub drain-safe :
    {n : ℕ} {s s' t : System}
    → Reach n started s
    → s.exit_pc ≡ draining
    → ExitStep s draining s' drained
    → ((i : ℕ) → i < n → s.pc i ≢ admitted)
    → Reach n (record s' { exit_pc = drained }) t
    → (i : ℕ) → i < n
    → t.pc i ≢ inside
unfolding IsRaised
drain-safe {n} {s} {s'} {t} r at_loop leaves none_admitted later_steps i lt e =
    let (unused, (same_pc, same_mounts)) = drain-step leaves in
    let raised = Reach-IsRaised started-IsRaised r (λ is_live. cc) in
    let none_bound : total bound n s'.pc ≡ 0 =
      ap (λ (pc : ℕ → Pc). total bound n pc) same_pc
      ∙ total-eq-zero bound n s.pc (unbound unused) in
    ground (
      arith,
      Reach-bound (omega (arith, raised, same_mounts)) later_steps,
      weight-le-total bound n t.pc i lt,
      none_bound,
    )
  where
    unbound : s.usage ≤ 1 → (j : ℕ) → j < n → bound (s.pc j) ≡ 0
    unbound u j l =
        ground (arith, usage_lem r, weight-le-total running n s.pc j l, none_admitted j l)
