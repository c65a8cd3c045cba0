-- ===== src/Buf/Bijection.antt =====
-- The encoders and decoders of buf.h as one correspondence between words and blocks of bytes.
use mathlib.Core.Equiv.{Iso}
use mathlib.Core.HLevel.{Σ_prop_path}
use native.Mathlib.Bridge.{le_prop}
use native.Mathlib.Nat.{ℕ_set}
use tag_sim.Common.{
  ℕ, zero, suc, ◌/◌, ◌^◌, ◌≤◌, ◌<◌, ◌≡◌, refl, ap, ◌∙◌, some, [], ◌∷◌, ◌++◌, arith, length, take,
  drop, leb, true, All,
}
use tag_sim.Buf.{Bytes}
use tag_sim.Buf.Digits.{
  IsByte, le_bytes, le_value, Width, size, encode, decode, le_value-le_bytes, le_bytes-le_value,
  le_value-lt,
}
use tag_sim.Buf.Refine.{encode-le_bytes, decode-le_value}
use tag_sim.Buf.RoundTrip.{All-append, All-le_bytes, leb-true}

-- The numbers of a width, and the blocks of as many bytes.
abbrev pub Word : Width → Type 0
Word w = (v : ℕ) × (v < 256 ^ size w)

abbrev pub Block : Width → Type 0
Block w = (bs : Bytes) × ((length bs ≡ size w) × All IsByte bs)

bytes_prop : (bs : Bytes) → IsProp (All IsByte bs)
bytes_prop [] = hlevel
bytes_prop (b ∷ bs) = hlevel (le_prop, bytes_prop bs)

same_word : (w : Width) {u v : Word w} → u.0 ≡ v.0 → u ≡ v
same_word w = Σ_prop_path (λ v. hlevel le_prop)

same_block : (w : Width) {b c : Block w} → b.0 ≡ c.0 → b ≡ c
same_block w {b} {c} =
    Σ_prop_path {B = λ bs. (length bs ≡ size w) × All IsByte bs}
      (λ bs. hlevel (ℕ_set, bytes_prop bs)) {u = b} {v = c}

length-digits : (n v : ℕ) → length (le_bytes n v) ≡ n
length-digits zero v = refl
length-digits (suc n) v = ap suc (length-digits n (v / 256))

take_own : (bs rest : Bytes) → take (length bs) (bs ++ rest) ≡ bs
take_own [] rest = refl
take_own (b ∷ bs) rest = ap (λ r. b ∷ r) (take_own bs rest)

drop_own : (bs rest : Bytes) → drop (length bs) (bs ++ rest) ≡ rest
drop_own [] rest = refl
drop_own (b ∷ bs) rest = drop_own bs rest

length_more : (bs rest : Bytes) → length bs ≤ length (bs ++ rest)
length_more [] rest = omega arith
length_more (b ∷ bs) rest = omega (arith, length_more bs rest)

module _ (w : Width) where
  value_of : Block w → Word w
  value_of b = (le_value b.0, rw⁻¹ b.1.0 (le_value-lt b.0 b.1.1))

  block_of : Word w → Block w
  block_of v = (le_bytes (size w) v.0, (length-digits (size w) v.0, All-le_bytes (size w) v.0))

  words_blocks : Iso (Block w) (Word w)
  unfolding value_of block_of
  words_blocks = record {
    fun = value_of;
    inv = block_of;
    rinv = λ v. same_word w (le_value-le_bytes (size w) v.0 v.1);
    linv = λ b. same_block w (rw⁻¹ b.1.0 (le_bytes-le_value b.0 (le_value b.0) b.1.1 refl));
  }

  roomy : (b : Block w) (rest : Bytes) → leb (size w) (length (b.0 ++ rest)) ≡ true
  roomy b rest = leb-true (size w) _ (rw⁻¹ b.1.0 (length_more b.0 rest))

  decode_block :
      (rest : Bytes)
      → All IsByte rest
      → (b : Block w) → decode w (b.0 ++ rest) ≡ some (le_value b.0)
  decode_block rest bytes b =
      decode-le_value w (b.0 ++ rest) (All-append b.0 rest b.1.1 bytes)
      ∙ rw (roomy b rest) (ap (λ bs. some (le_value bs)) (rw b.1.0 at (take_own b.0 rest)))

  encode_block :
      (rest : Bytes) (b : Block w) (v : ℕ)
      → encode w (b.0 ++ rest) v ≡ some (le_bytes (size w) v ++ rest)
  encode_block rest b v =
      encode-le_bytes w (b.0 ++ rest) v
      ∙ rw (roomy b rest)
          (ap (λ r. some (le_bytes (size w) v ++ r)) (rw b.1.0 at (drop_own b.0 rest)))

-- At each width, the blocks of as many bytes and the numbers of the width are in a correspondence
-- that is one to one, both ways of which the code computes: the decoder gives the number of the block
-- that the buffer starts with, and the encoder puts the block of the number in place of the one that
-- was there. The bytes behind do not matter and are kept.
pub decode-Iso-encode :
    (w : Width) (rest : Bytes)
    → All IsByte rest
    → (both : Iso (Block w) (Word w)) × ((b : Block w)
        → decode w (b.0 ++ rest) ≡ some (both.fun b).0)
      × ((b : Block w) (v : Word w) → encode w (b.0 ++ rest) v.0 ≡ some ((both.inv v).0 ++ rest))
unfolding words_blocks value_of block_of
decode-Iso-encode w rest bytes =
    (words_blocks w, decode_block w rest bytes, λ b v. encode_block w rest b v.0)
