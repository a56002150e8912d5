-- ===== src/Prelude/Bits.antt =====
-- `&` at variables: the lowest digit, a number and its complement, and the mask of whole words.
use Prim.Native.Nat.{
  ℕ, zero, suc, ◌+◌, ◌-◌, ◌*◌, ◌/◌, ◌%◌, ◌^◌, ◌≤◌, ◌<◌, min, bit_and, digits, bit_and-bitwise,
}
use mathlib.Core.Path.{◌≡◌, refl, ◌∙◌, sym, ap}
use native.Mathlib.Omega.{arith}
use native.Mathlib.Nat.{
  pow-suc, one-le-pow, div-add-mod', mod-lt, mod-eq_of_lt, add-mul-mod_self_right,
}

-- the recursion that `bit_and` stands for, with the number of rounds first
abbrev rounds : ℕ → ℕ → ℕ → ℕ
rounds = digits (λ y. zero) min

-- Rounds past the value of the first number change nothing.
rounds_enough : (k l a b : ℕ) → a ≤ k → a ≤ l → rounds k a b ≡ rounds l a b
rounds_enough zero zero a b p q = refl
rounds_enough k l zero b p q = at_zero k l
  where
    at_zero : (k l : ℕ) → rounds k zero b ≡ rounds l zero b
    at_zero zero zero = refl
    at_zero zero (suc l) = refl
    at_zero (suc k) zero = refl
    at_zero (suc k) (suc l) = refl
rounds_enough zero (suc l) (suc a) b p q = absurd (omega arith)
rounds_enough (suc k) zero (suc a) b p q = absurd (omega arith)
rounds_enough (suc k) (suc l) (suc a) b p q =
    ap (λ r. r * 2 + min (suc a % 2) (b % 2))
      (rounds_enough k l (suc a / 2) (b / 2) (omega arith) (omega arith))

pub bit_and-halves : (a b : ℕ) → bit_and a b ≡ bit_and (a / 2) (b / 2) * 2 + min (a % 2) (b % 2)
bit_and-halves zero b = omega (arith, bit_and-bitwise 0 b, bit_and-bitwise 0 (b / 2))
bit_and-halves (suc a) b =
    bit_and-bitwise (suc a) b
    ∙ ap (λ r. r * 2 + min (suc a % 2) (b % 2))
        (rounds_enough a (suc a / 2) (suc a / 2) (b / 2) (omega arith) (omega arith)
          ∙ sym (bit_and-bitwise (suc a / 2) (b / 2)))

-- A number has no digit in common with its complement.
pub bit_and-complement : (w a : ℕ) → a < 2 ^ w → bit_and a (2 ^ w - 1 - a) ≡ 0
bit_and-complement zero a h = ground (arith, bit_and-bitwise 0 0)
bit_and-complement (suc w) a h = ground (
  arith,
  pow-suc 2 w,
  bit_and-halves a (2 ^ suc w - 1 - a),
  bit_and-complement w (a / 2) (omega (arith, pow-suc 2 w)),
)

bit_and-zero : (a : ℕ) → bit_and a 0 ≡ 0
bit_and-zero a = below a a (omega arith)
  where
    below : (k a : ℕ) → a ≤ k → bit_and a 0 ≡ 0
    below k zero p = refl
    below zero (suc a) p = absurd (omega arith)
    below (suc k) (suc a) p =
        omega (arith, bit_and-halves (suc a) 0, below k (suc a / 2) (omega arith))

halves_mod : (m a : ℕ) → 0 < m → a % (m * 2) ≡ a / 2 % m * 2 + a % 2
halves_mod m a pos =
    ap (λ n. n % (m * 2)) split
    ∙ add-mul-mod_self_right low (a / 2 / m) (m * 2)
    ∙ mod-eq_of_lt small
  where
    low : ℕ
    low = a / 2 % m * 2 + a % 2

    split : a ≡ low + a / 2 / m * (m * 2)
    split = omega (arith, div-add-mod' (a / 2) m)

    small : low < m * 2
    small = omega (arith, mod-lt (a / 2) pos)

-- `w` low ones keep the remainder.
pub bit_and-ones : (w a : ℕ) → bit_and a (2 ^ w - 1) ≡ a % 2 ^ w
bit_and-ones zero a = omega (arith, bit_and-halves a 0, bit_and-zero (a / 2))
bit_and-ones (suc w) a = ground (
  arith,
  pow-suc 2 w,
  one-le-pow w 2,
  halves_mod (2 ^ w) a,
  bit_and-halves a (2 ^ suc w - 1),
  bit_and-ones w (a / 2),
)

-- The mask that clears the low three digits of a 64-bit word.
pub bit_and-aligned : (a : ℕ) → bit_and a 0xfffffffffffffff8 ≡ a % 2 ^ 64 / 8 * 8
bit_and-aligned a = omega (
  arith,
  bit_and-halves a 0xfffffffffffffff8,
  bit_and-halves (a / 2) 0x7ffffffffffffffc,
  bit_and-halves (a / 2 / 2) 0x3ffffffffffffffe,
  bit_and-ones 61 (a / 2 / 2 / 2),
)
