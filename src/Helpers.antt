-- ===== src/Helpers.antt =====
-- The inline functions of src/util/time_utils.h.
use tag_sim.Common.{
  ◌%◌, ◌+◌, ◌-◌, ◌<◌, ◌==◌, ◌^◌, ℕ, ◌≡◌, Bool, true, false, ◌&&◌, ◌||◌, not, List, [], ◌∷◌, ltb,
  leb, ℤ, pos, negsuc, ◌==ℤ◌, if◌then◌else◌, arith,
}

-- `<` on `intptr_t`.
abbrev pub before : ℤ → ℤ → Bool
before (pos a) (pos b) = ltb a b
before (pos a) (negsuc b) = false
before (negsuc a) (pos b) = true
before (negsuc a) (negsuc b) = ltb b a

-- `(intptr_t)` of an address of 64 bits.
abbrev pub intptr : ℕ → ℤ
intptr a = if ltb a (2 ^ 63) then pos a else negsuc (2 ^ 64 - 1 - a)

unfoldable pub ptr_before : ℕ → ℕ → Bool
ptr_before ptr end =
    if not (ptr == 0) && not (end == 0)
    then (if before (intptr ptr) (intptr end) then true else false)
    else false

-- `c >= low && c <= high`, for a `char` that may be negative and two that are not.
abbrev pub between : ℕ → ℕ → ℤ → Bool
between low high (pos c) = leb low c && leb c high
between low high (negsuc c) = false

unfoldable pub is_hex : ℤ → Bool
is_hex c =
    if between b'0' b'9' c
    then true
    else if between b'a' b'f' c || between b'A' b'F' c
    then true
    else false

abbrev pub mem : ℤ → List ℕ → Bool
mem c [] = false
mem c (d ∷ rest) = (c ==ℤ pos d) || mem c rest

abbrev pub hex_digits : List ℕ
hex_digits =
    b'0' ∷ b'1' ∷ b'2' ∷ b'3' ∷ b'4' ∷ b'5' ∷ b'6' ∷ b'7' ∷ b'8' ∷ b'9' ∷ b'a' ∷ b'b' ∷ b'c' ∷ b'd'
    ∷ b'e' ∷ b'f' ∷ b'A' ∷ b'B' ∷ b'C' ∷ b'D' ∷ b'E' ∷ b'F' ∷ []

-- The characters that are taken for hexadecimal digits are the 22 digits and letters, and no others.
pub is_hex-mem : (c : ℤ) → is_hex c ≡ mem c hex_digits
unfolding is_hex
is_hex-mem (negsuc c) = ground arith
is_hex-mem (pos c) = ground arith

-- Of two addresses of 64 bits the first is before the second where neither is null and the first is
-- smaller once the top bit of both is flipped: two addresses of the same half are compared as they are,
-- and each address of the upper half is before each of the lower half.
pub ptr_before-flipped :
    (p q : ℕ)
    → p < 2 ^ 64
    → q < 2 ^ 64
    → ptr_before p q
      ≡ (not (p == 0) && not (q == 0) && ltb ((p + 2 ^ 63) % 2 ^ 64) ((q + 2 ^ 63) % 2 ^ 64))
unfolding ptr_before
ptr_before-flipped p q hp hq = ground arith
