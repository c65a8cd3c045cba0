-- ===== src/Buf/Digits.antt =====
-- The description that buf.h is compared with: a number's digits in base 256, lowest first.
use tag_sim.Common.{
  ℕ, zero, suc, ◌+◌, ◌*◌, ◌/◌, ◌%◌, ◌^◌, ◌<◌, ◌≡◌, refl, ap, [], ◌∷◌, Option, arith, length, All,
}
use tag_sim.Buf.{
  Bytes, encode_uint16_le, decode_uint16_le, encode_uint32_le, decode_uint32_le, encode_uint64_le,
  decode_uint64_le,
}
use native.Mathlib.Nat.{pow-suc}

abbrev pub IsByte : ℕ → Type 0
IsByte b = b < 256

-- `n` digits of `v`.
abbrev pub le_bytes : ℕ → ℕ → Bytes
le_bytes zero v = []
le_bytes (suc n) v = (v % 256) ∷ le_bytes n (v / 256)

abbrev pub le_value : Bytes → ℕ
le_value [] = 0
le_value (b ∷ bs) = b + 256 * le_value bs

-- The three widths of buf.h.
pub data Width : Type 0 where
  w16 w32 w64 : Width

abbrev pub size : Width → ℕ
size w16 = 2
size w32 = 4
size w64 = 8

abbrev pub encode : Width → Bytes → ℕ → Option Bytes
encode w16 = encode_uint16_le
encode w32 = encode_uint32_le
encode w64 = encode_uint64_le

abbrev pub decode : Width → Bytes → Option ℕ
decode w16 = decode_uint16_le
decode w32 = decode_uint32_le
decode w64 = decode_uint64_le

-- The digits stand for the number, as far as they go.
pub le_value-le_bytes : (n v : ℕ) → v < 256 ^ n → le_value (le_bytes n v) ≡ v
le_value-le_bytes zero v h = omega arith
le_value-le_bytes (suc n) v h =
    omega (arith, le_value-le_bytes n (v / 256) (omega (arith, pow-suc 256 n)))

-- Bytes are the digits of what they stand for, whatever stands above them.
pub le_bytes-le_value :
    (bs : Bytes) (v : ℕ) → All IsByte bs → v ≡ le_value bs → le_bytes (length bs) v ≡ bs
le_bytes-le_value [] v h e = refl
le_bytes-le_value (b ∷ bs) v h e =
    let low : v % 256 ≡ b = omega arith in
    let high : v / 256 ≡ le_value bs = omega arith in
    rw low (ap (λ r. b ∷ r) (le_bytes-le_value bs (v / 256) h.1 high))

pub le_value-lt : (bs : Bytes) → All IsByte bs → le_value bs < 256 ^ length bs
le_value-lt [] h = omega arith
le_value-lt (b ∷ bs) h = omega (arith, le_value-lt bs h.1, pow-suc 256 (length bs))
