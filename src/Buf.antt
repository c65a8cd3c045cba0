-- ===== src/Buf.antt =====
-- The little-endian helpers of src/util/buf.h. Memory from the pointer `buf` on is a list of bytes;
-- an access past its end is `none`.
pub mod Digits
pub mod Refine
pub mod RoundTrip
pub mod Bijection
use tag_sim.Common.{
  ℕ, zero, suc, ◌+◌, ◌*◌, ◌/◌, ◌%◌, ◌^◌, bit_and, bit_or, Option, none, some, List, [], ◌∷◌,
}

abbrev pub Bytes : Type 0
Bytes = List ℕ

infixl 5 ◌>>=◌
abbrev pub ◌>>=◌ : {A B : Type 0} → Option A → (A → Option B) → Option B
none >>= f = none
some a >>= f = f a

-- `buf[i]`
unfoldable pub load : Bytes → ℕ → Option ℕ
load [] i = none
load (b ∷ bs) zero = some b
load (b ∷ bs) (suc i) = load bs i

-- `buf[i] = v`
unfoldable pub store : Bytes → ℕ → ℕ → Option Bytes
store [] i v = none
store (b ∷ bs) zero v = some (v ∷ bs)
store (b ∷ bs) (suc i) v = store bs i v >>= λ rest. some (b ∷ rest)

-- `(uint8_t)((value >> k) & 0xFF)`
unfoldable pub byte_of : ℕ → ℕ → ℕ
byte_of value k = bit_and (value / 2 ^ k) 0xff % 2 ^ 8

-- `(uintN_t)b << k` for an N-bit type; the shifts of the source lose no bit.
abbrev shl : ℕ → ℕ → ℕ
shl b k = b * 2 ^ k

unfoldable pub encode_uint16_le : Bytes → ℕ → Option Bytes
unfolding store byte_of
encode_uint16_le buf value = do buf ← store buf 0 (byte_of value 0); store buf 1 (byte_of value 8)

unfoldable pub decode_uint16_le : Bytes → Option ℕ
unfolding load
decode_uint16_le buf = do b0 ← load buf 0; b1 ← load buf 1; some (bit_or b0 (shl b1 8))

unfoldable pub encode_uint32_le : Bytes → ℕ → Option Bytes
unfolding store byte_of
encode_uint32_le buf value = do
  buf ← store buf 0 (byte_of value 0)
  buf ← store buf 1 (byte_of value 8)
  buf ← store buf 2 (byte_of value 16)
  store buf 3 (byte_of value 24)

unfoldable pub decode_uint32_le : Bytes → Option ℕ
unfolding load
decode_uint32_le buf = do
  b0 ← load buf 0
  b1 ← load buf 1
  b2 ← load buf 2
  b3 ← load buf 3
  some (bit_or (bit_or (bit_or b0 (shl b1 8)) (shl b2 16)) (shl b3 24))

unfoldable pub encode_uint64_le : Bytes → ℕ → Option Bytes
unfolding store byte_of
encode_uint64_le buf value = do
  buf ← store buf 0 (byte_of value 0)
  buf ← store buf 1 (byte_of value 8)
  buf ← store buf 2 (byte_of value 16)
  buf ← store buf 3 (byte_of value 24)
  buf ← store buf 4 (byte_of value 32)
  buf ← store buf 5 (byte_of value 40)
  buf ← store buf 6 (byte_of value 48)
  store buf 7 (byte_of value 56)

unfoldable pub decode_uint64_le : Bytes → Option ℕ
unfolding load
decode_uint64_le buf = do
  b0 ← load buf 0
  b1 ← load buf 1
  b2 ← load buf 2
  b3 ← load buf 3
  b4 ← load buf 4
  b5 ← load buf 5
  b6 ← load buf 6
  b7 ← load buf 7
  some (
      bit_or
        (bit_or
          (bit_or
            (bit_or (bit_or (bit_or (bit_or b0 (shl b1 8)) (shl b2 16)) (shl b3 24)) (shl b4 32))
            (shl b5 40))
          (shl b6 48))
        (shl b7 56))
