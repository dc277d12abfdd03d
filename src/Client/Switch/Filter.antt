-- ===== src/Client/Switch/Filter.antt =====
-- Whether the counters of a processor follow the tracked tasks, in client/client_module.c.
use pmu_min_suite.Prelude.{
  ℕ, ◌≡◌, refl, Bool, true, false, if◌then◌else◌, List, [], ◌∷◌, inl, inr, Bool-cases, ap, ◌∙◌,
}
use pmu_min_suite.Tracker.Task.{Task}
use pmu_min_suite.Client.Pmu.{Settings, Registers, fixed_pmcs_to_bits_mask}
use pmu_min_suite.Client.Switch.{client_hook_sched_in, switches, last}

-- `global_ctrl` while a task runs that is tracked or not.
abbrev pub wanted : Settings → Bool → ℕ
wanted s tracked = if tracked then fixed_pmcs_to_bits_mask s else 0

module _ (query_tracker : Task → Bool) where
  sched_in-wanted :
      (s : Settings) (r : Registers) (prev next : Task)
      → s.thread_filter ≡ true
      → r.global_ctrl ≡ wanted s (query_tracker prev)
      → (client_hook_sched_in query_tracker s r prev next).global_ctrl
        ≡ wanted s (query_tracker next)
  unfolding client_hook_sched_in
  sched_in-wanted s r prev next on before = elim (Bool-cases (query_tracker prev)) [
    | inl p ↦ elim (Bool-cases (query_tracker next)) [
      | inl n ↦ rw (on, p, n) (before ∙ ap (λ (b : Bool). wanted s b) p)
      | inr n ↦ rw (on, p, n) refl
    ]
    | inr p ↦ elim (Bool-cases (query_tracker next)) [
      | inl n ↦ rw (on, p, n) refl
      | inr n ↦ rw (on, p, n) (before ∙ ap (λ (b : Bool). wanted s b) p)
    ]
  ]

  -- If `thread_filter` is set and the fixed counters of a processor are enabled just when the running
  -- task is tracked, then this is so after any series of switches with the same tracked tasks.
  pub switches-wanted :
      (s : Settings) (r : Registers) (prev : Task) (rest : List Task)
      → s.thread_filter ≡ true
      → r.global_ctrl ≡ wanted s (query_tracker prev)
      → (switches query_tracker s r prev rest).global_ctrl
        ≡ wanted s (query_tracker (last prev rest))
  unfolding switches
  switches-wanted s r prev [] on before = before
  switches-wanted s r prev (next ∷ rest) on before =
      switches-wanted s (client_hook_sched_in query_tracker s r prev next) next rest on
        (sched_in-wanted s r prev next on before)

  abbrev AllUntracked : List Task → Type 0
  AllUntracked [] = Unit
  AllUntracked (t ∷ rest) = (query_tracker t ≡ false) × AllUntracked rest

  sched_in-untracked :
      (s : Settings) (r : Registers) (prev next : Task)
      → query_tracker prev ≡ false
      → query_tracker next ≡ false
      → client_hook_sched_in query_tracker s r prev next ≡ r
  unfolding client_hook_sched_in
  sched_in-untracked s r prev next p n = elim (Bool-cases s.thread_filter) [
    | inl on ↦ rw (on, p, n) refl
    | inr off ↦ rw off refl
  ]

  -- A processor whose counters are enabled while an untracked task runs, as loading leaves it, keeps
  -- them enabled while only untracked tasks run.
  switches-untracked :
      (s : Settings) (r : Registers) (prev : Task) (rest : List Task)
      → query_tracker prev ≡ false
      → AllUntracked rest
      → switches query_tracker s r prev rest ≡ r
  unfolding switches
  switches-untracked s r prev [] out all = refl
  switches-untracked s r prev (next ∷ rest) out (here, all) =
      rw (sched_in-untracked s r prev next out here) (switches-untracked s r next rest here all)
