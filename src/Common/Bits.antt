-- ===== src/Common/Bits.antt =====
-- `|` of fields that do not overlap and `&` with a mask of ones, as arithmetic.
use Prim.Native.Nat.{ℕ, zero, suc, ◌+◌, ◌*◌, ◌/◌, ◌%◌, ◌^◌, ◌≤◌, ◌<◌, min, max}
use Prim.Native.Nat.{digits, bit_and, bit_or, bit_and-bitwise, bit_or-bitwise}
use mathlib.Core.Path.{◌≡◌, refl, ap}
use native.Mathlib.Omega.{arith}
use native.Mathlib.Nat.{pow-suc, le_refl}

-- More digits to go than the number has change nothing.
module _ (last : ℕ → ℕ) (digit : ℕ → ℕ → ℕ) where
  digits_enough : (n k a b : ℕ) → a ≤ n → a ≤ k → digits last digit n a b ≡ digits last digit k a b
  digits_enough zero zero a b h h' = refl
  digits_enough zero (suc k) zero b h h' = refl
  digits_enough zero (suc k) (suc a) b h h' = absurd (omega arith)
  digits_enough (suc n) zero zero b h h' = refl
  digits_enough (suc n) zero (suc a) b h h' = absurd (omega arith)
  digits_enough (suc n) (suc k) zero b h h' = refl
  digits_enough (suc n) (suc k) (suc a) b h h' =
      ap (λ (t : ℕ). t * 2 + digit (suc a % 2) (b % 2))
        (digits_enough n k (suc a / 2) (b / 2) (omega arith) (omega arith))

-- The lowest digit of `|` and of `&`.
or_low : (a b : ℕ) → bit_or a b ≡ bit_or (a / 2) (b / 2) * 2 + max (a % 2) (b % 2)
or_low zero b = omega (arith, bit_or-bitwise 0 b, bit_or-bitwise 0 (b / 2))
or_low (suc a) b = omega (
  arith,
  bit_or-bitwise (suc a) b,
  bit_or-bitwise (suc a / 2) (b / 2),
  digits_enough (λ d. d) max a (suc a / 2) (suc a / 2) (b / 2) (omega arith) (omega arith),
)

and_low : (a b : ℕ) → bit_and a b ≡ bit_and (a / 2) (b / 2) * 2 + min (a % 2) (b % 2)
and_low zero b = omega (arith, bit_and-bitwise 0 b, bit_and-bitwise 0 (b / 2))
and_low (suc a) b = omega (
  arith,
  bit_and-bitwise (suc a) b,
  bit_and-bitwise (suc a / 2) (b / 2),
  digits_enough (λ d. 0) min a (suc a / 2) (suc a / 2) (b / 2) (omega arith) (omega arith),
)

and_none : (k a : ℕ) → a ≤ k → bit_and a 0 ≡ 0
and_none k zero h = omega (arith, bit_and-bitwise 0 0)
and_none zero (suc a) h = absurd (omega arith)
and_none (suc k) (suc a) h = omega (arith, and_low (suc a) 0, and_none k (suc a / 2) (omega arith))

-- `r | (q << k)` where `r` has at most `k` bits.
pub bit_or_above : (k r q : ℕ) → r < 2 ^ k → bit_or r (q * 2 ^ k) ≡ r + q * 2 ^ k
bit_or_above zero zero q h = omega (arith, bit_or-bitwise 0 (q * 1))
bit_or_above zero (suc r) q h = absurd (omega arith)
bit_or_above (suc k) r q h =
    let shifted : q * 2 ^ suc k ≡ 2 * (q * 2 ^ k) =
      omega (arith, ap (λ (t : ℕ). q * t) (pow-suc 2 k)) in
    ground (
      arith,
      shifted,
      pow-suc 2 k,
      or_low r (q * 2 ^ suc k),
      bit_or_above k (r / 2) q (omega (arith, pow-suc 2 k)),
    )

-- `a & 0x0f` and `a & 0xff`.
low_nibble : (a : ℕ) → bit_and a 15 ≡ a % 16
low_nibble a = omega (
  arith,
  and_low a 15,
  and_low (a / 2) 7,
  and_low (a / 2 / 2) 3,
  and_low (a / 2 / 2 / 2) 1,
  and_none _ (a / 2 / 2 / 2 / 2) (le_refl _),
)

pub bit_and_byte : (a : ℕ) → bit_and a 255 ≡ a % 256
bit_and_byte a = omega (
  arith,
  and_low a 255,
  and_low (a / 2) 127,
  and_low (a / 2 / 2) 63,
  and_low (a / 2 / 2 / 2) 31,
  low_nibble (a / 2 / 2 / 2 / 2),
)
