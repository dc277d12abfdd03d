-- ===== src/Prelude/Lists.antt =====
-- Byte buffers as lists with native indices, and the copy into a part of one.
use Prim.Native.Nat.{ℕ, zero, suc, ◌+◌, ◌-◌, ◌≤◌}
use mathlib.Core.Path.{◌≡◌, refl, ap}
use mathlib.Core.List.{List, [], ◌∷◌, ◌++◌}
use mathlib.Core.Option.{Option, none, some}
use native.Mathlib.Omega.{arith}

module _ {ℓ} {A : Type ℓ} where
  abbrev pub length : List A → ℕ
  length [] = 0
  length (x ∷ xs) = suc (length xs)

  abbrev pub get_elem? : List A → ℕ → Option A
  get_elem? [] i = none
  get_elem? (x ∷ xs) zero = some x
  get_elem? (x ∷ xs) (suc i) = get_elem? xs i

  abbrev pub take : ℕ → List A → List A
  take zero xs = []
  take (suc n) [] = []
  take (suc n) (x ∷ xs) = x ∷ take n xs

  abbrev pub drop : ℕ → List A → List A
  drop zero xs = xs
  drop (suc n) [] = []
  drop (suc n) (x ∷ xs) = drop n xs

  abbrev pub replicate : ℕ → A → List A
  replicate zero a = []
  replicate (suc n) a = a ∷ replicate n a

  -- `memcpy(&buf[off], src, n)` within `buf`: the first `n` of `src` replace what is there.
  abbrev pub overwrite : List A → ℕ → List A → List A
  overwrite buf zero [] = buf
  overwrite [] off src = []
  overwrite (b ∷ buf) zero (x ∷ src) = x ∷ overwrite buf zero src
  overwrite (b ∷ buf) (suc off) src = b ∷ overwrite buf off src

  pub length-replicate : (n : ℕ) (a : A) → length (replicate n a) ≡ n
  length-replicate zero a = refl
  length-replicate (suc n) a = ap suc (length-replicate n a)

  pub length-append : (xs ys : List A) → length (xs ++ ys) ≡ length xs + length ys
  length-append [] ys = omega arith
  length-append (x ∷ xs) ys = omega (arith, length-append xs ys)

  pub length-take : (n : ℕ) (xs : List A) → n ≤ length xs → length (take n xs) ≡ n
  length-take zero xs h = refl
  length-take (suc n) [] h = absurd (omega arith)
  length-take (suc n) (x ∷ xs) h = ap suc (length-take n xs (omega arith))

  pub length-drop : (n : ℕ) (xs : List A) → length (drop n xs) ≡ length xs - n
  length-drop zero xs = omega arith
  length-drop (suc n) [] = omega arith
  length-drop (suc n) (x ∷ xs) = omega (arith, length-drop n xs)

  pub length-overwrite :
      (buf : List A) (off : ℕ) (src : List A) → length (overwrite buf off src) ≡ length buf
  length-overwrite buf zero [] = refl
  length-overwrite [] zero (x ∷ src) = refl
  length-overwrite [] (suc off) src = refl
  length-overwrite (b ∷ buf) zero (x ∷ src) = ap suc (length-overwrite buf zero src)
  length-overwrite (b ∷ buf) (suc off) src = ap suc (length-overwrite buf off src)

  -- What was written is read back.
  pub take-drop-overwrite :
      (buf : List A) (off : ℕ) (src : List A)
      → off + length src ≤ length buf
      → take (length src) (drop off (overwrite buf off src)) ≡ src
  take-drop-overwrite buf zero [] h = refl
  take-drop-overwrite [] zero (x ∷ src) h = absurd (omega arith)
  take-drop-overwrite [] (suc off) src h = absurd (omega arith)
  take-drop-overwrite (b ∷ buf) zero (x ∷ src) h =
      ap (λ l. x ∷ l) (take-drop-overwrite buf zero src (omega arith))
  take-drop-overwrite (b ∷ buf) (suc off) src h = take-drop-overwrite buf off src (omega arith)

  -- The rest is left as it was.
  pub drop-overwrite :
      (buf : List A) (off : ℕ) (src : List A) (n : ℕ)
      → off + length src ≤ n
      → drop n (overwrite buf off src) ≡ drop n buf
  drop-overwrite buf zero [] n h = refl
  drop-overwrite [] zero (x ∷ src) n h = refl
  drop-overwrite [] (suc off) src n h = refl
  drop-overwrite (b ∷ buf) zero (x ∷ src) zero h = absurd (omega arith)
  drop-overwrite (b ∷ buf) zero (x ∷ src) (suc n) h = drop-overwrite buf zero src n (omega arith)
  drop-overwrite (b ∷ buf) (suc off) src zero h = absurd (omega arith)
  drop-overwrite (b ∷ buf) (suc off) src (suc n) h = drop-overwrite buf off src n (omega arith)

  pub take-overwrite :
      (buf : List A) (off : ℕ) (src : List A) → take off (overwrite buf off src) ≡ take off buf
  take-overwrite buf zero src = refl
  take-overwrite [] (suc off) src = refl
  take-overwrite (b ∷ buf) (suc off) src = ap (λ l. b ∷ l) (take-overwrite buf off src)
