-- ===== src/Base/Bits.antt =====
-- `bit_and` with a mask of low ones, at a variable. The libraries define it digit by digit only.
use Prim.Native.Nat.{
  ℕ, zero, suc, ◌+◌, ◌*◌, ◌/◌, ◌%◌, ◌≤◌, ◌<◌, min, bit_and, digits, bit_and-bitwise,
}
use mathlib.Core.Path.{◌≡◌, refl, ap, ◌∙◌}
use native.Mathlib.Nat.{add-mul-mod_self_left, mod-eq_of_lt, div-add-mod}
use native.Mathlib.Omega.{arith}

-- The lowest digit of a remainder by twice `p`, and the rest of it.
mod_double : (a p : ℕ) → 0 < p → a % (2 * p) ≡ a / 2 % p * 2 + a % 2
mod_double a p h =
    ap (λ t. t % (2 * p)) split
    ∙ (add-mul-mod_self_left low (2 * p) (a / 2 / p) ∙ mod-eq_of_lt (omega arith))
  where
    low : ℕ
    low = a / 2 % p * 2 + a % 2

    split : a ≡ low + 2 * p * (a / 2 / p)
    split = omega (arith, div-add-mod (a / 2) p)

-- `ones k` is 2 ^ k - 1.
abbrev pub ones : ℕ → ℕ
ones zero = 0
ones (suc k) = 2 * ones k + 1

abbrev pub two_to : ℕ → ℕ
two_to zero = 1
two_to (suc k) = 2 * two_to k

two_to_pos : (k : ℕ) → 0 < two_to k
two_to_pos zero = omega arith
two_to_pos (suc k) = omega (arith, two_to_pos k)

half_ones : (m : ℕ) → (2 * m + 1) / 2 ≡ m
half_ones m = omega arith

-- Whatever the count of digits to go, as long as it is enough.
low_digits : (k n a : ℕ) → a ≤ n → digits (λ b. zero) min n a (ones k) ≡ a % two_to k
low_digits zero zero a h = omega arith
low_digits zero (suc n) zero h = refl
low_digits zero (suc n) (suc a) h = omega (arith, low_digits zero n (suc a / 2) (omega arith))
low_digits (suc k) zero zero h = omega (arith, two_to_pos k)
low_digits (suc k) zero (suc a) h = absurd (omega arith)
low_digits (suc k) (suc n) zero h = omega (arith, two_to_pos k)
low_digits (suc k) (suc n) (suc a) h = omega (
  arith,
  low_digits k n (suc a / 2) (omega arith),
  ap (digits (λ b. zero) min n (suc a / 2)) (half_ones (ones k)),
  mod_double (suc a) (two_to k) (two_to_pos k),
)

-- A mask of `k` ones keeps the remainder by 2 ^ k.
pub bit_and-ones : (k a : ℕ) → bit_and a (ones k) ≡ a % two_to k
bit_and-ones k a = bit_and-bitwise a (ones k) ∙ low_digits k a a (omega arith)

-- The masks of the array sizes 512, 1024 and 2048.
pub bit_and_511 : (a : ℕ) → bit_and a 511 ≡ a % 512
bit_and_511 = bit_and-ones 9

pub bit_and_1023 : (a : ℕ) → bit_and a 1023 ≡ a % 1024
bit_and_1023 = bit_and-ones 10

pub bit_and_2047 : (a : ℕ) → bit_and a 2047 ≡ a % 2048
bit_and_2047 = bit_and-ones 11
