-- ===== src/Prelude/Bits.antt =====
-- `&`, `|` and `^` on words that are split in two fields, at every width. The native operations
-- stand for a recursion on binary digits, from which the law of the lowest digit comes first.
use Prim.Native.Nat.{
  ℕ, zero, suc, ◌+◌, ◌-◌, ◌*◌, ◌/◌, ◌%◌, ◌^◌, ◌≤◌, ◌<◌, min, max, bit_and, bit_or, bit_xor, differ,
  digits, bitwise, bit_and-bitwise, bit_or-bitwise, bit_xor-bitwise,
}
use mathlib.Core.Path.{◌≡◌, refl, ap}
use native.Mathlib.Nat.{pow-suc, one-le-pow}
use native.Mathlib.Omega.{arith}

module _ (rest : ℕ → ℕ) (digit : ℕ → ℕ → ℕ) where
  digits_enough :
      (fuel more x y : ℕ)
      → x ≤ fuel
      → x ≤ more
      → digits rest digit fuel x y ≡ digits rest digit more x y
  digits_enough zero zero x y small large = refl
  digits_enough zero (suc more) zero y small large = refl
  digits_enough zero (suc more) (suc x) y small large = absurd (omega arith)
  digits_enough (suc fuel) zero zero y small large = refl
  digits_enough (suc fuel) zero (suc x) y small large = absurd (omega arith)
  digits_enough (suc fuel) (suc more) zero y small large = refl
  digits_enough (suc fuel) (suc more) (suc x) y small large =
      rw (digits_enough fuel more (suc x / 2) (y / 2) (omega arith) (omega arith))

  bitwise_low :
      (x y : ℕ)
      → bitwise rest digit (suc x) y
        ≡ bitwise rest digit (suc x / 2) (y / 2) * 2 + digit (suc x % 2) (y % 2)
  bitwise_low x y =
      omega (arith, digits_enough x (suc x / 2) (suc x / 2) (y / 2) (omega arith) (omega arith))

-- The lowest digit of a result is that of the operands, and the rest that of the rest.
abbrev pub IsDigitwise : (ℕ → ℕ → ℕ) → (ℕ → ℕ → ℕ) → Type 0
IsDigitwise op digit = (x y : ℕ) → op x y ≡ op (x / 2) (y / 2) * 2 + digit (x % 2) (y % 2)

bit_and_step : IsDigitwise bit_and min
bit_and_step zero y = simp bit_and-bitwise (omega arith)
bit_and_step (suc x) y = simp bit_and-bitwise (bitwise_low (λ t. 0) min x y)

bit_or_step : IsDigitwise bit_or max
bit_or_step zero y = simp bit_or-bitwise (omega arith)
bit_or_step (suc x) y = simp bit_or-bitwise (bitwise_low (λ t. t) max x y)

bit_xor_step : IsDigitwise bit_xor differ
bit_xor_step zero y = simp bit_xor-bitwise (omega arith)
bit_xor_step (suc x) y = simp bit_xor-bitwise (bitwise_low (λ t. t) differ x y)

double_field : (q k : ℕ) → q * 2 ^ suc k ≡ 2 * (q * 2 ^ k)
double_field q k = omega (arith, ap (λ (t : ℕ). q * t) (pow-suc 2 k))

halves :
    (k q r : ℕ) → ((q * 2 ^ suc k + r) / 2 ≡ q * 2 ^ k + r / 2) × ((q * 2 ^ suc k + r) % 2 ≡ r % 2)
halves k q r = omega (arith, double_field q k)

-- An operation that works digit by digit works field by field.
module _ (op g : ℕ → ℕ → ℕ) (step : IsDigitwise op g) where
  fields :
      (k q r p s : ℕ)
      → r < 2 ^ k
      → s < 2 ^ k
      → op (q * 2 ^ k + r) (p * 2 ^ k + s) ≡ op q p * 2 ^ k + op r s
  fields zero q zero p zero hr hs = rw (zero_bits, one_field q, one_field p) (omega arith)
    where
      zero_bits : op 0 0 ≡ 0
      zero_bits = omega (arith, step 0 0)

      one_field : (t : ℕ) → t * 2 ^ 0 + 0 ≡ t
      one_field t = omega arith
  fields zero q zero p (suc s) hr hs = absurd (omega arith)
  fields zero q (suc r) p s hr hs = absurd (omega arith)
  fields (suc k) q r p s hr hs =
      rw
        (
          step (q * 2 ^ suc k + r) (p * 2 ^ suc k + s),
          (halves k q r).0,
          (halves k p s).0,
          (halves k q r).1,
          (halves k p s).1,
          fields k q (r / 2) p (s / 2) (omega (arith, pow-suc 2 k)) (omega (arith, pow-suc 2 k)),
        )
        (omega (arith, step r s, double_field (op q p) k))

module _ (k q r p s : ℕ) (hr : r < 2 ^ k) (hs : s < 2 ^ k) where
  pub bit_and_fields : bit_and (q * 2 ^ k + r) (p * 2 ^ k + s) ≡ bit_and q p * 2 ^ k + bit_and r s
  bit_and_fields = fields bit_and min bit_and_step k q r p s hr hs

  pub bit_or_fields : bit_or (q * 2 ^ k + r) (p * 2 ^ k + s) ≡ bit_or q p * 2 ^ k + bit_or r s
  bit_or_fields = fields bit_or max bit_or_step k q r p s hr hs

  pub bit_xor_fields : bit_xor (q * 2 ^ k + r) (p * 2 ^ k + s) ≡ bit_xor q p * 2 ^ k + bit_xor r s
  bit_xor_fields = fields bit_xor differ bit_xor_step k q r p s hr hs

-- What is below `2 ^ k` loses nothing under an operation that keeps a digit beside a zero.
module _ (op g : ℕ → ℕ → ℕ) (step : (a b : ℕ) → op a b ≡ op (a / 2) (b / 2) * 2 + g (a % 2) (b % 2))
    (keep : (d : ℕ) → d < 2 → g d 0 ≡ d) where
  keep_all : (n a : ℕ) → a ≤ n → op a 0 ≡ a
  keep_all n zero h = zero_kept
    where
      at_zero : op 0 0 ≡ op 0 0 * 2 + g 0 0
      at_zero = step 0 0

      zero_kept : op 0 0 ≡ 0
      zero_kept = ground (arith, at_zero)
  keep_all zero (suc a) h = absurd (omega arith)
  keep_all (suc n) (suc a) h =
      omega (
        arith,
        step (suc a) 0,
        keep (suc a % 2) (omega arith),
        keep_all n (suc a / 2) (omega arith),
      )

differ-zero : (d : ℕ) → differ d 0 ≡ d
differ-zero zero = refl
differ-zero (suc d) = refl

pub bit_or-zero : (a : ℕ) → bit_or a 0 ≡ a
bit_or-zero a = keep_all bit_or max bit_or_step (λ d h. omega arith) a a (omega arith)

pub bit_xor-zero : (a : ℕ) → bit_xor a 0 ≡ a
bit_xor-zero a = keep_all bit_xor differ bit_xor_step (λ d h. differ-zero d) a a (omega arith)

pub zero-bit_and : (b : ℕ) → bit_and 0 b ≡ 0
zero-bit_and b = simp bit_and-bitwise refl

pub zero-bit_or : (b : ℕ) → bit_or 0 b ≡ b
zero-bit_or b = simp bit_or-bitwise refl

and_none : (n a : ℕ) → a ≤ n → bit_and a 0 ≡ 0
and_none n zero h = refl
and_none zero (suc a) h = absurd (omega arith)
and_none (suc n) (suc a) h =
    omega (arith, bit_and_step (suc a) 0, and_none n (suc a / 2) (omega arith))

pub bit_and-zero : (a : ℕ) → bit_and a 0 ≡ 0
bit_and-zero a = and_none a a (omega arith)

-- A mask of `k` ones keeps the low field.
mask_below : (k a : ℕ) → a < 2 ^ k → bit_and a (2 ^ k - 1) ≡ a
mask_below zero zero h = refl
mask_below zero (suc a) h = absurd (omega arith)
mask_below (suc k) a h =
    rw
      (bit_and_step a (2 ^ suc k - 1), half_mask, mask_below k (a / 2) (omega (arith, pow-suc 2 k)))
      (omega (arith, pow-suc 2 k, one-le-pow k 2))
  where
    half_mask : (2 ^ suc k - 1) / 2 ≡ 2 ^ k - 1
    half_mask = omega (arith, pow-suc 2 k, one-le-pow k 2)

-- `a & (2^k - 1)` is the remainder.
pub bit_and_mask : (k a : ℕ) → bit_and a (2 ^ k - 1) ≡ a % 2 ^ k
bit_and_mask k a = ground (
  arith,
  one-le-pow k 2,
  bit_and_fields k (a / 2 ^ k) (a % 2 ^ k) 0 (2 ^ k - 1),
  bit_and-zero (a / 2 ^ k),
  mask_below k (a % 2 ^ k),
)

and_comm_below : (n a b : ℕ) → a ≤ n → b ≤ n → bit_and a b ≡ bit_and b a
and_comm_below zero zero zero h k = refl
and_comm_below zero zero (suc b) h k = absurd (omega arith)
and_comm_below zero (suc a) b h k = absurd (omega arith)
and_comm_below (suc n) a b h k = omega (
  arith,
  bit_and_step a b,
  bit_and_step b a,
  and_comm_below n (a / 2) (b / 2) (omega arith) (omega arith),
)

pub bit_and_comm : (a b : ℕ) → bit_and a b ≡ bit_and b a
bit_and_comm a b = and_comm_below (a + b) a b (omega arith) (omega arith)

-- A field of ones absorbs what is joined to it.
pub mask-bit_or : (k a : ℕ) → a < 2 ^ k → bit_or (2 ^ k - 1) a ≡ 2 ^ k - 1
mask-bit_or zero zero h = refl
mask-bit_or zero (suc a) h = absurd (omega arith)
mask-bit_or (suc k) a h =
    rw
      (bit_or_step (2 ^ suc k - 1) a, half_mask, mask-bit_or k (a / 2) (omega (arith, pow-suc 2 k)))
      (omega (arith, pow-suc 2 k, one-le-pow k 2))
  where
    half_mask : (2 ^ suc k - 1) / 2 ≡ 2 ^ k - 1
    half_mask = omega (arith, pow-suc 2 k, one-le-pow k 2)
