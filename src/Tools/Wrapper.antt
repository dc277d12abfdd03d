-- ===== src/Tools/Wrapper.antt =====
-- tools/wrapper.c: the program that writes its pid to the file `processes` of the client module and
-- then becomes another program. A text is the list of its bytes. The C library and the kernel are
-- arguments: whether the file opens, the pid, its digits, what the module's write of these bytes is
-- answered, and whether `execvp` finds the program. `fclose` makes one write of all the digits.
use pmu_min_suite.Prelude.{
  ℕ, ◌≡◌, refl, ap, ◌∙◌, Bool, true, none, some, if◌then◌else◌, is_err, ℤ, pos, negsuc, List, [],
  ◌∷◌, Bool-cases, inl, inr,
}
use pmu_min_suite.Prelude.Lists.{length}
use pmu_min_suite.Clist.Contract.{Clist}
use pmu_min_suite.Tracker.Task.{Task}
use pmu_min_suite.Tracker.Contract.{Tracker, IsLive, IsCanonical}
use pmu_min_suite.Client.Pmi.{ProcData}
use pmu_min_suite.Client.Processes.{PidApi, World, processes_write}
use pmu_min_suite.Client.Processes.References.{lookup-processes_write}

-- `digits` is `%d` of a number.
pub record WrapperApi : Type 0 where
  pub fopen : Bool
  pub getpid : ℕ
  pub digits : ℕ → List ℕ
  pub write : List ℕ → PidApi
  pub execvp : List ℕ → List (List ℕ) → Bool

-- How the program ends: with a code, or as the program `exec` with its arguments.
pub data End : Type 0 where
  returned : ℤ → End
  became : List ℕ → List (List ℕ) → End

module _ (T : Clist) (R : Tracker) where
  -- The write to the file.
  abbrev pub registered : WrapperApi → World T R → World T R
  registered api w =
      (processes_write T R (api.write (api.digits api.getpid)) w (length (api.digits api.getpid))).0

  -- The arguments with the name of the program itself.
  unfoldable pub main : WrapperApi → World T R → List (List ℕ) → World T R × End
  main api w (name ∷ (exec ∷ (arg ∷ args))) =
      if api.fopen
      then (
        registered api w,
        if api.execvp exec (exec ∷ arg ∷ args)
            then became exec (exec ∷ arg ∷ args)
            else returned (pos 0),
      )
      else (w, returned (negsuc 0))
  main api w _ = (w, returned (negsuc 0))

  -- If the wrapper is called with a program and at least one argument for it, the file opens, the
  -- program is found, the module reads the digits as the pid of the wrapper's own task, which is
  -- live and not tracked, and finds memory at a canonical address, then the wrapper becomes the
  -- program with its arguments, in a task that the tracker has with its new structure.
  pub main-tracks :
      (api : WrapperApi) (w : World T R) (name exec arg : List ℕ) (args : List (List ℕ))
      (pid proc : ℕ) (task : Task) (held : ProcData)
      → api.fopen ≡ true
      → api.execvp exec (exec ∷ arg ∷ args) ≡ true
      → (api.write (api.digits api.getpid)).kstrtouint_from_user ≡ (pos 0, api.getpid)
      → (api.write (api.digits api.getpid)).find_get_pid api.getpid ≡ some pid
      → (api.write (api.digits api.getpid)).pid_task pid ≡ some task
      → (api.write (api.digits api.getpid)).kmalloc ≡ some (proc, held)
      → (api.write (api.digits api.getpid)).alloc ≡ true
      → R.Ready w.tracker
      → IsLive task
      → IsCanonical proc
      → R.lookup w.tracker task ≡ none
      → (w' : World T R) × (main api w (name ∷ exec ∷ arg ∷ args)
          ≡ (w', became exec (exec ∷ arg ∷ args)))
        × (R.lookup w'.tracker task ≡ some proc)
        × (w'.memory.procs proc ≡ some held)
  unfolding main
  main-tracks api w name exec arg args pid proc task held opens finds parsed e t k al ready live
        canon absent =
      let (found, ready', there) =
        lookup-processes_write T R (api.write (api.digits api.getpid)) w
          (length (api.digits api.getpid)) pid proc task held
          (ap (λ (r : ℤ × ℕ). is_err r.0) parsed)
          (ap (λ (r : ℤ × ℕ). (api.write (api.digits api.getpid)).find_get_pid r.1) parsed ∙ e) t k
          al ready live canon absent in
      (registered api w, rw (opens, finds) refl, found, there)

  -- The wrapper becomes another program only if it was called with at least one argument for it and
  -- the file opened; the program and its arguments are then those of the call, and the state is that
  -- after the write, whatever the module answered to it.
  main-became :
      (api : WrapperApi) (w w' : World T R) (argv args : List (List ℕ)) (exec : List ℕ)
      → main api w argv ≡ (w', became exec args)
      → (name : List ℕ) × (arg : List ℕ) × (rest : List (List ℕ)) × (argv
          ≡ name ∷ exec ∷ arg ∷ rest)
        × (args ≡ exec ∷ arg ∷ rest)
        × (api.fopen ≡ true)
        × (w' ≡ registered api w)
  unfolding main
  main-became api w w' [] args exec e = cc
  main-became api w w' (name ∷ []) args exec e = cc
  main-became api w w' (name ∷ (exec' ∷ [])) args exec e = cc
  main-became api w w' (name ∷ (exec' ∷ (arg ∷ rest))) args exec e = elim (Bool-cases api.fopen) [
    | inl opens ↦ elim (Bool-cases (api.execvp exec' (exec' ∷ arg ∷ rest))) [
      | inl finds ↦
          let same : ◌≡◌ {A = World T R × End} (registered api w, became exec' (exec' ∷ arg ∷ rest))
              (w', became exec args) =
            rw (opens, finds) at e in
          (name, arg, rest, cc, cc, opens, cc)
      | inr lost ↦
          let same : ◌≡◌ {A = World T R × End} (registered api w, returned (pos 0))
              (w', became exec args) =
            rw (opens, lost) at e in
          absurd (cc)
    ]
    | inr closed ↦
        let same : ◌≡◌ {A = World T R × End} (w, returned (negsuc 0)) (w', became exec args) =
          rw closed at e in
        absurd (cc)
  ]
