-- ===== src/Buf/RoundTrip.antt =====
-- What is encoded decodes to itself, in both directions, at each width.
use tag_sim.Common.{
  ℕ, zero, suc, ◌/◌, ◌%◌, ◌^◌, ◌≤◌, ◌<◌, ◌≡◌, refl, sym, ap, ◌∙◌, some, [], ◌∷◌, ◌++◌, arith,
  length, take, drop, leb, true, Bool-cases, inl, inr, All, take-append-drop, length-take,
}
use mathlib.Core.Option.{some-injective, none-ne-some}
use tag_sim.Buf.{Bytes}
use tag_sim.Buf.Digits.{
  IsByte, le_bytes, le_value, Width, size, encode, decode, le_value-le_bytes, le_bytes-le_value,
}
use tag_sim.Buf.Refine.{encode-le_bytes, decode-le_value}

pub All-append : (xs ys : Bytes) → All IsByte xs → All IsByte ys → All IsByte (xs ++ ys)
All-append [] ys h k = k
All-append (x ∷ xs) ys h k = (h.0, All-append xs ys h.1 k)

All-drop : (n : ℕ) (xs : Bytes) → All IsByte xs → All IsByte (drop n xs)
All-drop zero xs h = h
All-drop (suc n) [] h = h
All-drop (suc n) (x ∷ xs) h = All-drop n xs h.1

All-take : (n : ℕ) (xs : Bytes) → All IsByte xs → All IsByte (take n xs)
All-take zero xs h = tt
All-take (suc n) [] h = h
All-take (suc n) (x ∷ xs) h = (h.0, All-take n xs h.1)

pub All-le_bytes : (n v : ℕ) → All IsByte (le_bytes n v)
All-le_bytes zero v = tt
All-le_bytes (suc n) v = (omega arith, All-le_bytes n (v / 256))

take-le_bytes : (n v : ℕ) (rest : Bytes) → take n (le_bytes n v ++ rest) ≡ le_bytes n v
take-le_bytes zero v rest = refl
take-le_bytes (suc n) v rest = ap (λ r. (v % 256) ∷ r) (take-le_bytes n (v / 256) rest)

length-le_bytes : (n v : ℕ) (rest : Bytes) → leb n (length (le_bytes n v ++ rest)) ≡ true
length-le_bytes zero v rest = ground arith
length-le_bytes (suc n) v rest = ground (arith, length-le_bytes n (v / 256) rest)

drop-le_bytes : (n v : ℕ) (rest : Bytes) → drop n (le_bytes n v ++ rest) ≡ rest
drop-le_bytes zero v rest = refl
drop-le_bytes (suc n) v rest = drop-le_bytes n (v / 256) rest

pub leb-true : (n k : ℕ) → n ≤ k → leb n k ≡ true
leb-true n k h = ground arith

le_of_leb : (n k : ℕ) → leb n k ≡ true → n ≤ k
le_of_leb n k h = ground arith

module _ (w : Width) (buf : Bytes) (v : ℕ) where
  written : Bytes
  written = le_bytes (size w) v ++ drop (size w) buf

  -- A value of the width, encoded into a buffer of bytes with enough room, is decoded again from
  -- the buffer that results; the bytes past the width are those that were there.
  pub decode-encode :
      All IsByte buf
      → size w ≤ length buf
      → v < 256 ^ size w
      → (out : Bytes) × (encode w buf v ≡ some out)
        × (decode w out ≡ some v)
        × (drop (size w) out ≡ drop (size w) buf)
  unfolding written
  decode-encode bytes room small = (
    written,
    encode-le_bytes w buf v ∙ rw (leb-true (size w) (length buf) room),
    decode-le_value w written (
          All-append (le_bytes (size w) v) (drop (size w) buf) (All-le_bytes (size w) v)
            (All-drop (size w) buf bytes))
        ∙ rw (
          length-le_bytes (size w) v (drop (size w) buf),
          take-le_bytes (size w) v (drop (size w) buf),
          le_value-le_bytes (size w) v small,
        ),
    drop-le_bytes (size w) v (drop (size w) buf),
  )

  -- A value that is decoded from a buffer of bytes is encoded again without changing the buffer.
  pub encode-decode : All IsByte buf → decode w buf ≡ some v → encode w buf v ≡ some buf
  encode-decode bytes got = elim (Bool-cases (leb (size w) (length buf))) [
    | inl long ↦
        let value : le_value (take (size w) buf) ≡ v =
          some-injective _ _ (rw long at (sym (decode-le_value w buf bytes) ∙ got)) in
        let count : length (take (size w) buf) ≡ size w =
          omega (arith, length-take (size w) buf, le_of_leb (size w) (length buf) long) in
        encode-le_bytes w buf v
        ∙ rw long (
            ap some (
              ap (λ r. r ++ drop (size w) buf)
                (rw count at (
                  le_bytes-le_value (take (size w) buf) v (All-take (size w) buf bytes)
                    (sym value)))
              ∙ take-append-drop (size w) buf))
    | inr short ↦ absurd (none-ne-some v (rw short at (sym (decode-le_value w buf bytes) ∙ got)))
  ]
