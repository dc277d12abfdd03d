-- ===== src/Hook/Loop.antt =====
-- The loop of `system_hooks_init` and `init_kprobes`: register the entries of a table in order, and
-- at the first error unregister, latest first, those that were registered. `none` stands for a call
-- of `unregister` that has no defined behaviour.
use pmu_min_suite.Prelude.{
  ◌≡◌, refl, true, false, Option, none, some, if◌then◌else◌, ℤ, pos, is_err, List, [], ◌∷◌, arith,
}

module _ {S X : Type 0} (register : S → X → S × ℤ) (unregister : S → X → Option S) where
  -- `for (i = i - 1; i >= 0; --i)`, and the loop of the exit functions.
  unfoldable pub unregister_all : S → List X → Option S
  unregister_all s [] = some s
  unregister_all s (x ∷ xs) = elim (unregister s x) [ none ↦ none | some s' ↦ unregister_all s' xs ]

  abbrev pub with_code : Option S → ℤ → Option (S × ℤ)
  with_code none err = none
  with_code (some s) err = some (s, err)

  -- `done` holds the entries before `i`, latest first.
  unfoldable pub register_from : S → List X → List X → Option (S × ℤ)
  register_from s done [] = some (s, pos 0)
  register_from s done (x ∷ xs) = elim (is_err (register s x).1) [
    | true ↦ with_code (unregister_all (register s x).0 done) (register s x).1
    | false ↦ register_from (register s x).0 (x ∷ done) xs
  ]

  unfoldable pub register_all : S → List X → Option (S × ℤ)
  register_all s xs = register_from s [] xs

  -- The same without the way back: the state after all calls, and the first error.
  unfoldable pub register_each : S → List X → S
  register_each s [] = s
  register_each s (x ∷ xs) = register_each (register s x).0 xs

  unfoldable pub first_error : S → List X → ℤ
  first_error s [] = pos 0
  first_error s (x ∷ xs) =
      if is_err (register s x).1 then (register s x).1 else first_error (register s x).0 xs

  module _ (fails : (s : S) (x : X) → is_err (register s x).1 ≡ true → (register s x).0 ≡ s)
      (undoes : (s : S) (x : X)
        → is_err (register s x).1 ≡ false
        → unregister (register s x).0 x ≡ some s) where
    undo :
        (x : X) (done : List X) (s start : S)
        → is_err (register s x).1 ≡ false
        → unregister_all s done ≡ some start
        → unregister_all (register s x).0 (x ∷ done) ≡ some start
    unfolding unregister_all
    undo x done s start e h = ground (arith, undoes s x e)

    register_from_lem :
        (xs done : List X) (s start : S)
        → unregister_all s done ≡ some start
        → register_from s done xs ≡ (
            if is_err (first_error s xs)
            then some (start, first_error s xs)
            else some (register_each s xs, pos 0))
    unfolding register_from first_error register_each
    register_from_lem [] done s start h = refl
    register_from_lem (x ∷ xs) done s start h = ground (
      arith,
      fails s x,
      undo x done s start,
      register_from_lem xs (x ∷ done) (register s x).0 start,
    )

    -- If a failed call changes nothing and unregistering takes back what was just registered, the
    -- loop registers all entries or, at the first error, leaves the state as it was and returns
    -- that error.
    pub register_all_lem :
        (s : S) (xs : List X)
        → register_all s xs ≡ (
            if is_err (first_error s xs)
            then some (s, first_error s xs)
            else some (register_each s xs, pos 0))
    unfolding register_all unregister_all
    register_all_lem s xs = register_from_lem xs [] s s refl
