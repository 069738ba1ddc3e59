-- ===== src/Base/Masks.antt =====
-- `&` with a mask, as arithmetic: the lowest bit, a run of low ones, a run of ones further up.
use Prim.Native.Nat.{
  ℕ, zero, suc, ◌+◌, ◌-◌, ◌*◌, ◌/◌, ◌%◌, ◌^◌, ◌≤◌, ◌<◌, min, bit_and, digits, bit_and-bitwise,
}
use mathlib.Core.Path.{◌≡◌, refl}
use native.Mathlib.Nat.{pow-suc}
use native.Mathlib.Omega.{arith}

-- The recursion that `bit_and` stands for, with the count of digits as its fuel.
abbrev low_digits : ℕ → ℕ → ℕ → ℕ
low_digits fuel a b = digits (λ _. zero) min fuel a b

-- Any count that covers the first number gives the same result.
low_digits_enough : (k l a b : ℕ) → a ≤ k → a ≤ l → low_digits k a b ≡ low_digits l a b
low_digits_enough zero zero a b h g = refl
low_digits_enough zero (suc l) zero b h g = refl
low_digits_enough (suc k) zero zero b h g = refl
low_digits_enough (suc k) (suc l) zero b h g = refl
low_digits_enough zero l (suc a) b h g = absurd (omega arith)
low_digits_enough (suc k) zero (suc a) b h g = absurd (omega arith)
low_digits_enough (suc k) (suc l) (suc a) b h g =
    omega (arith, low_digits_enough k l (suc a / 2) (b / 2) (omega arith) (omega arith))

-- One binary digit of `bit_and`.
pub bit_and_digit : (a b : ℕ) → bit_and a b ≡ bit_and (a / 2) (b / 2) * 2 + min (a % 2) (b % 2)
bit_and_digit zero b = omega (arith, bit_and-bitwise 0 b, bit_and-bitwise 0 (b / 2))
bit_and_digit (suc a) b = omega (
  arith,
  bit_and-bitwise (suc a) b,
  bit_and-bitwise (suc a / 2) (b / 2),
  low_digits_enough a (suc a / 2) (suc a / 2) (b / 2) (omega arith) (omega arith),
)

bit_and-zero : (k a : ℕ) → a ≤ k → bit_and a 0 ≡ 0
bit_and-zero k zero h = refl
bit_and-zero zero (suc a) h = absurd (omega arith)
bit_and-zero (suc k) (suc a) h =
    omega (arith, bit_and_digit (suc a) 0, bit_and-zero k (suc a / 2) (omega arith))

-- The lowest bit.
pub bit_and-one : (a : ℕ) → bit_and a 1 ≡ a % 2
bit_and-one a = omega (arith, bit_and_digit a 1, bit_and-zero (a / 2) (a / 2) (omega arith))

bit_and-odd : (a m : ℕ) → bit_and a (2 * m + 1) ≡ 2 * bit_and (a / 2) m + a % 2
bit_and-odd a m =
    let e : (2 * m + 1) / 2 ≡ m = omega arith in
    let step = rw e at (bit_and_digit a (2 * m + 1)) in omega (arith, step)

bit_and-even : (a m : ℕ) → bit_and a (2 * m) ≡ 2 * bit_and (a / 2) m
bit_and-even a m =
    let e : 2 * m / 2 ≡ m = omega arith in
    let step = rw e at (bit_and_digit a (2 * m)) in omega (arith, step)

-- `k` ones, and a mask moved up by `k` places.
abbrev pub ones : ℕ → ℕ
ones zero = 0
ones (suc k) = 2 * ones k + 1

abbrev pub moved_up : ℕ → ℕ → ℕ
moved_up zero m = m
moved_up (suc k) m = 2 * moved_up k m

abbrev halved : ℕ → ℕ → ℕ
halved zero a = a
halved (suc k) a = halved k (a / 2)

pub bit_and-ones : (k a : ℕ) → a < 2 ^ k → bit_and a (ones k) ≡ a
bit_and-ones zero a h = omega (arith, bit_and-zero a a (omega arith))
bit_and-ones (suc k) a h = omega (
  arith,
  pow-suc 2 k,
  bit_and-odd a (ones k),
  bit_and-ones k (a / 2) (omega (arith, pow-suc 2 k)),
)

abbrev doubled : ℕ → ℕ → ℕ
doubled zero a = a
doubled (suc k) a = 2 * doubled k a

bit_and-moved_up : (k a m : ℕ) → bit_and a (moved_up k m) ≡ doubled k (bit_and (halved k a) m)
bit_and-moved_up zero a m = refl
bit_and-moved_up (suc k) a m =
    omega (arith, bit_and-even a (moved_up k m), bit_and-moved_up k (a / 2) m)

-- Clearing the low twelve bits of a 64-bit word leaves the largest multiple of 4096 below it.
pub bit_and_page_mask : (a : ℕ) → a < 2 ^ 64 → bit_and a (2 ^ 64 - 4096) ≡ a / 4096 * 4096
bit_and_page_mask a h =
    omega (arith, bit_and-moved_up 12 a (ones 52), bit_and-ones 52 (halved 12 a) (omega arith))
