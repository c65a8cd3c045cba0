-- ===== src/Tests/Buf.antt =====
-- The helpers of src/util/buf.h at concrete bytes.
use tag_sim.Common.{ℕ, ◌++◌, ◌≡◌, refl, some, none, [], ◌∷◌, arith}
use tag_sim.Buf.{Bytes, encode_uint32_le, decode_uint32_le, encode_uint64_le}
use tag_sim.Buf.Digits.{w16, encode, decode}
use tag_sim.Buf.Refine.{Encoded, Decoded, base_256}
use mathlib.Core.Equiv.{Iso}
use tag_sim.Buf.Bijection.{Word, Block, decode-Iso-encode}

abbrev five : Bytes
five = 0x11 ∷ 0x22 ∷ 0x33 ∷ 0x44 ∷ 0x55 ∷ []

encode32_run : encode_uint32_le five 0xdeadbeef ≡ some (0xef ∷ 0xbe ∷ 0xad ∷ 0xde ∷ 0x55 ∷ [])
unfolding encode_uint32_le
encode32_run = refl

decode32_run : decode_uint32_le five ≡ some 0x44332211
unfolding decode_uint32_le
decode32_run = refl

encode64_short : encode_uint64_le five 1 ≡ none
unfolding encode_uint64_le
encode64_short = refl

base_256_example : Decoded w16 five × ((v : ℕ) → Encoded w16 five v)
base_256_example = base_256 w16 five (omega arith)

decode-Iso-encode_example :
    (both : Iso (Block w16) (Word w16)) × ((b : Block w16)
      → decode w16 (b.0 ++ five) ≡ some (both.fun b).0)
    × ((b : Block w16) (v : Word w16)
        → encode w16 (b.0 ++ five) v.0 ≡ some ((both.inv v).0 ++ five))
decode-Iso-encode_example = decode-Iso-encode w16 five (omega arith)
