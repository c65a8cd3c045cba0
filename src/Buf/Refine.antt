-- ===== src/Buf/Refine.antt =====
-- Each helper of buf.h writes or reads base-256 digits, and nothing else.
use tag_sim.Common.{
  ℕ, ◌+◌, ◌*◌, ◌/◌, ◌%◌, ◌^◌, ◌<◌, ◌≡◌, refl, ap, none, some, [], ◌∷◌, ◌++◌, arith, bit_or, length,
  take, drop, leb, true, suc, ◌≤◌, if◌then◌else◌, All,
}
use tag_sim.Common.Bits.{bit_or_above, bit_and_byte}
use tag_sim.Buf.{
  Bytes, byte_of, encode_uint16_le, decode_uint16_le, encode_uint32_le, decode_uint32_le,
  encode_uint64_le, decode_uint64_le,
}
use tag_sim.Buf.Digits.{IsByte, le_bytes, le_value, Width, w16, w32, w64, size, encode, decode}

-- A byte of a number is a digit of it in base 256.
byte_of_digit : (value k : ℕ) → byte_of value k ≡ value / 2 ^ k % 256
unfolding byte_of
byte_of_digit value k = omega (arith, bit_and_byte (value / 2 ^ k))

bytes16 : (v : ℕ) → byte_of v 0 ∷ byte_of v 8 ∷ [] ≡ le_bytes 2 v
bytes16 v = rw (byte_of_digit v 0, byte_of_digit v 8) (ground arith)

bytes32 : (v : ℕ) → byte_of v 0 ∷ byte_of v 8 ∷ byte_of v 16 ∷ byte_of v 24 ∷ [] ≡ le_bytes 4 v
bytes32 v =
    rw (byte_of_digit v 0, byte_of_digit v 8, byte_of_digit v 16, byte_of_digit v 24) (ground arith)

bytes64 :
    (v : ℕ)
    → byte_of v 0
        ∷ byte_of v 8
        ∷ byte_of v 16
        ∷ byte_of v 24
        ∷ byte_of v 32
        ∷ byte_of v 40
        ∷ byte_of v 48
        ∷ byte_of v 56
        ∷ []
      ≡ le_bytes 8 v
bytes64 v =
    rw
      (
        byte_of_digit v 0,
        byte_of_digit v 8,
        byte_of_digit v 16,
        byte_of_digit v 24,
        byte_of_digit v 32,
        byte_of_digit v 40,
        byte_of_digit v 48,
        byte_of_digit v 56,
      )
      (ground arith)

abbrev pub Encoded : Width → Bytes → ℕ → Type 0
Encoded w buf v =
    encode w buf v
    ≡ (if leb (size w) (length buf) then some (le_bytes (size w) v ++ drop (size w) buf) else none)

-- One more byte on top of what is decoded so far.
or_byte : (k low b : ℕ) → low < 2 ^ k → bit_or low (b * 2 ^ k) ≡ low + b * 2 ^ k
or_byte k low b h = bit_or_above k low b h

-- A test of the source's own kind, passed.
fits : (n k : ℕ) → n ≤ k → leb n k ≡ true
fits n k h = ground arith

encode16 : (buf : Bytes) (v : ℕ) → Encoded w16 buf v
unfolding encode_uint16_le
encode16 [] v = refl
encode16 (_ ∷ []) v = refl
encode16 (_ ∷ _ ∷ rest) v =
    rw (fits 2 (suc (suc (length rest))) (omega arith)) (ap (λ r. some (r ++ rest)) (bytes16 v))

encode32 : (buf : Bytes) (v : ℕ) → Encoded w32 buf v
unfolding encode_uint32_le
encode32 [] v = refl
encode32 (_ ∷ []) v = refl
encode32 (_ ∷ _ ∷ []) v = refl
encode32 (_ ∷ _ ∷ _ ∷ []) v = refl
encode32 (_ ∷ _ ∷ _ ∷ _ ∷ rest) v =
    rw (fits 4 (suc (suc (suc (suc (length rest))))) (omega arith))
      (ap (λ r. some (r ++ rest)) (bytes32 v))

encode64 : (buf : Bytes) (v : ℕ) → Encoded w64 buf v
unfolding encode_uint64_le
encode64 [] v = refl
encode64 (_ ∷ []) v = refl
encode64 (_ ∷ _ ∷ []) v = refl
encode64 (_ ∷ _ ∷ _ ∷ []) v = refl
encode64 (_ ∷ _ ∷ _ ∷ _ ∷ []) v = refl
encode64 (_ ∷ _ ∷ _ ∷ _ ∷ _ ∷ []) v = refl
encode64 (_ ∷ _ ∷ _ ∷ _ ∷ _ ∷ _ ∷ []) v = refl
encode64 (_ ∷ _ ∷ _ ∷ _ ∷ _ ∷ _ ∷ _ ∷ []) v = refl
encode64 (_ ∷ _ ∷ _ ∷ _ ∷ _ ∷ _ ∷ _ ∷ _ ∷ rest) v =
    rw (fits 8 (suc (suc (suc (suc (suc (suc (suc (suc (length rest))))))))) (omega arith))
      (ap (λ r. some (r ++ rest)) (bytes64 v))

abbrev pub Decoded : Width → Bytes → Type 0
Decoded w buf =
    decode w buf ≡ (if leb (size w) (length buf) then some (le_value (take (size w) buf)) else none)

decode16 : (buf : Bytes) → All IsByte buf → Decoded w16 buf
unfolding decode_uint16_le
decode16 [] h = refl
decode16 (_ ∷ []) h = refl
decode16 (a ∷ b ∷ rest) (ha, (hb, _)) =
    rw (or_byte 8 (a) b (omega arith), fits 2 (suc (suc (length rest))) (omega arith))
      (ap some (omega arith))

decode32 : (buf : Bytes) → All IsByte buf → Decoded w32 buf
unfolding decode_uint32_le
decode32 [] h = refl
decode32 (_ ∷ []) h = refl
decode32 (_ ∷ _ ∷ []) h = refl
decode32 (_ ∷ _ ∷ _ ∷ []) h = refl
decode32 (a ∷ b ∷ c ∷ d ∷ rest) (ha, (hb, (hc, (hd, _)))) =
    rw
      (
        or_byte 8 (a) b (omega arith),
        or_byte 16 (a + b * 2 ^ 8) c (omega arith),
        or_byte 24 (a + b * 2 ^ 8 + c * 2 ^ 16) d (omega arith),
        fits 4 (suc (suc (suc (suc (length rest))))) (omega arith),
      )
      (ap some (omega arith))

decode64 : (buf : Bytes) → All IsByte buf → Decoded w64 buf
unfolding decode_uint64_le
decode64 [] h = refl
decode64 (_ ∷ []) h = refl
decode64 (_ ∷ _ ∷ []) h = refl
decode64 (_ ∷ _ ∷ _ ∷ []) h = refl
decode64 (_ ∷ _ ∷ _ ∷ _ ∷ []) h = refl
decode64 (_ ∷ _ ∷ _ ∷ _ ∷ _ ∷ []) h = refl
decode64 (_ ∷ _ ∷ _ ∷ _ ∷ _ ∷ _ ∷ []) h = refl
decode64 (_ ∷ _ ∷ _ ∷ _ ∷ _ ∷ _ ∷ _ ∷ []) h = refl
decode64 (a ∷ b ∷ c ∷ d ∷ e ∷ f ∷ g ∷ h ∷ rest) (ha, (hb, (hc, (hd, (he, (hf, (hg, (hh, _)))))))) =
    rw
      (
        or_byte 8 (a) b (omega arith),
        or_byte 16 (a + b * 2 ^ 8) c (omega arith),
        or_byte 24 (a + b * 2 ^ 8 + c * 2 ^ 16) d (omega arith),
        or_byte 32 (a + b * 2 ^ 8 + c * 2 ^ 16 + d * 2 ^ 24) e (omega arith),
        or_byte 40 (a + b * 2 ^ 8 + c * 2 ^ 16 + d * 2 ^ 24 + e * 2 ^ 32) f (omega arith),
        or_byte 48 (a + b * 2 ^ 8 + c * 2 ^ 16 + d * 2 ^ 24 + e * 2 ^ 32 + f * 2 ^ 40) g
            (omega arith),
        or_byte 56 (a + b * 2 ^ 8 + c * 2 ^ 16 + d * 2 ^ 24 + e * 2 ^ 32 + f * 2 ^ 40 + g * 2 ^ 48)
            h (omega arith),
        fits 8 (suc (suc (suc (suc (suc (suc (suc (suc (length rest))))))))) (omega arith),
      )
      (ap some (omega arith))

-- At each width, `encode` writes the digits of the value in place of the first bytes, lowest digit
-- first, and keeps the rest of the buffer; a buffer that is too short is a fault.
pub encode-le_bytes : (w : Width) (buf : Bytes) (v : ℕ) → Encoded w buf v
encode-le_bytes w16 buf v = encode16 buf v
encode-le_bytes w32 buf v = encode32 buf v
encode-le_bytes w64 buf v = encode64 buf v

-- At each width, over bytes below 256, `decode` is the number that the first bytes stand for in
-- base 256; a buffer that is too short is a fault.
pub decode-le_value : (w : Width) (buf : Bytes) → All IsByte buf → Decoded w buf
decode-le_value w16 buf h = decode16 buf h
decode-le_value w32 buf h = decode32 buf h
decode-le_value w64 buf h = decode64 buf h

-- At each width, over bytes below 256: `decode` is the number that the first bytes stand for in base
-- 256, and `encode` writes the digits of a number in place of the first bytes, lowest digit first, and
-- keeps the rest of the buffer; both are a fault where the buffer is too short.
pub base_256 :
    (w : Width) (buf : Bytes) → All IsByte buf → Decoded w buf × ((v : ℕ) → Encoded w buf v)
base_256 w buf h = (decode-le_value w buf h, λ v. encode-le_bytes w buf v)
