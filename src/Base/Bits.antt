-- ===== src/Base/Bits.antt =====
-- Disjunction and masks of native numbers, as arithmetic.
use Prim.Native.Nat.{
  ℕ, zero, suc, ◌+◌, ◌-◌, ◌*◌, ◌/◌, ◌%◌, ◌^◌, ◌≤◌, min, max, digits, bitwise, bit_and, bit_or,
  bit_and-bitwise, bit_or-bitwise,
}
use mathlib.Core.Path.{◌≡◌, refl, sym, ap, ◌∙◌}
use native.Mathlib.Nat.{
  le_refl, pow-zero, pow-suc, one-le-pow, mod-add-div, div-div-eq-div-mul, mul_assoc, mul_comm,
  mul-one, div-one, mod-one,
}
use native.Mathlib.Omega.{arith}

-- A mask of the `k` lowest bits, as `(1 << k) - 1` makes it.
abbrev pub low_mask : ℕ → ℕ
low_mask k = 2 ^ k - 1

module _ (z : ℕ → ℕ) (f : ℕ → ℕ → ℕ) where
  -- The recursion of `bitwise` on digits does not depend on its fuel.
  enough_digits : (n m a b : ℕ) → a ≤ n → a ≤ m → digits z f n a b ≡ digits z f m a b
  enough_digits zero zero a b p q = refl
  enough_digits zero (suc m) zero b p q = refl
  enough_digits zero (suc m) (suc a) b p q = absurd (omega arith)
  enough_digits (suc n) zero zero b p q = refl
  enough_digits (suc n) zero (suc a) b p q = absurd (omega arith)
  enough_digits (suc n) (suc m) zero b p q = refl
  enough_digits (suc n) (suc m) (suc a) b p q =
      rw (enough_digits n m (suc a / 2) (b / 2) (omega arith) (omega arith))

  bitwise_digit :
      (a b : ℕ)
      → bitwise z f (suc a) b ≡ bitwise z f (suc a / 2) (b / 2) * 2 + f (suc a % 2) (b % 2)
  bitwise_digit a b =
      omega (arith, enough_digits a (suc a / 2) (suc a / 2) (b / 2) (omega arith) (le_refl _))

or_digit : (a b : ℕ) → bit_or a b ≡ bit_or (a / 2) (b / 2) * 2 + max (a % 2) (b % 2)
or_digit zero b = simp bit_or-bitwise (omega arith)
or_digit (suc a) b = simp bit_or-bitwise (bitwise_digit (λ y. y) max a b)

and_digit : (a b : ℕ) → bit_and a b ≡ bit_and (a / 2) (b / 2) * 2 + min (a % 2) (b % 2)
and_digit zero b = simp bit_and-bitwise (omega arith)
and_digit (suc a) b = simp bit_and-bitwise (bitwise_digit (λ y. 0) min a b)

double_pow : (q k : ℕ) → q * 2 ^ suc k ≡ 2 * (q * 2 ^ k)
double_pow q k = omega (arith, ap (λ (t : ℕ). q * t) (pow-suc 2 k))

-- A remainder by a product, in two digits.
pub mod-mul : (a m n : ℕ) → a % (m * n) ≡ a % m + m * (a / m % n)
mod-mul a m n =
    let whole : a % (m * n) + m * n * (a / m / n) ≡ a =
      rw (div-div-eq-div-mul a m n) (mod-add-div a (m * n)) in
    let low = mod-add-div a m in
    let high = ap (λ (t : ℕ). m * t) (mod-add-div (a / m) n) in
    omega (arith, whole, low, high, mul_assoc m n (a / m / n))

pub pow-add : (b i j : ℕ) → b ^ (i + j) ≡ b ^ i * b ^ j
pow-add b zero j = ground (arith, pow-zero b, pow-zero b)
pow-add b (suc i) j =
    let power : b ^ (suc i + j) ≡ b * b ^ (i + j) =
      ap (λ (t : ℕ). b ^ t) (omega arith) ∙ pow-suc b (i + j) ∙ mul_comm (b ^ (i + j)) b in
    let first : b ^ suc i ≡ b * b ^ i = omega (arith, pow-suc b i) in
    rw (power, pow-add b i j, first) (sym (mul_assoc b (b ^ i) (b ^ j)))

-- A mask keeps the remainder.
pub bit_and_mask : (k a : ℕ) → bit_and (low_mask k) a ≡ a % 2 ^ k
bit_and_mask zero a = simp bit_and-bitwise (omega arith)
bit_and_mask (suc k) a = ground (
  arith,
  and_digit (low_mask (suc k)) a,
  pow-suc 2 k,
  one-le-pow k 2,
  bit_and_mask k (a / 2),
  mod-mul a 2 (2 ^ k),
  ap (λ (t : ℕ). a % t) (mul_comm (2 ^ k) 2),
)

-- The bits below a shifted number stay as they are.
pub bit_or-shift : (k a m : ℕ) → bit_or a (m * 2 ^ k) ≡ a % 2 ^ k + bit_or (a / 2 ^ k) m * 2 ^ k
bit_or-shift zero a m = rw (pow-zero 2, mul-one m, div-one a, mod-one a) (omega arith)
bit_or-shift (suc k) a m =
    let twice : m * 2 ^ suc k ≡ 2 * (m * 2 ^ k) = double_pow m k in
    let result = double_pow (bit_or (a / 2 / 2 ^ k) m) k in
    let quotient : a / 2 ^ suc k ≡ a / 2 / 2 ^ k =
      rw (div-div-eq-div-mul a 2 (2 ^ k)) (ap (λ (t : ℕ). a / t) (omega (arith, pow-suc 2 k))) in
    let remainder : a % 2 ^ suc k ≡ a % 2 + 2 * (a / 2 % 2 ^ k) =
      ap (λ (t : ℕ). a % t) (omega (arith, pow-suc 2 k)) ∙ mod-mul a 2 (2 ^ k) in
    let half : m * 2 ^ suc k / 2 ≡ m * 2 ^ k = omega (arith, twice) in
    rw (quotient, or_digit a (m * 2 ^ suc k), half, bit_or-shift k (a / 2) m)
      (omega (arith, twice, result, remainder))
