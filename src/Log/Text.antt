-- ===== src/Log/Text.antt =====
-- The characters of a dump: what `snprintf` makes of "%04zu" and " %02x" in src/util/debug.c, and a
-- reader of such a row.
use tag_sim.Common.{
  ℕ, zero, suc, ◌+◌, ◌*◌, ◌-◌, ◌/◌, ◌%◌, ◌^◌, List, [], ◌∷◌, ◌++◌, if◌then◌else◌, ltb, ◌==◌, length,
}
use tag_sim.Log.{dump_ptr}

abbrev pub digit : ℕ → ℕ
digit d = if ltb d 10 then b'0' + d else b'a' + (d - 10)

-- The decimal digits of `n`; `fuel` is more than `n`.
unfoldable pub decimal : ℕ → ℕ → List ℕ
decimal zero n = []
decimal (suc fuel) n =
    let before = decimal fuel (n / 10) in (if ltb n 10 then [] else before) ++ digit (n % 10) ∷ []

unfoldable pub zeros : ℕ → List ℕ
zeros zero = []
zeros (suc n) = b'0' ∷ zeros n

-- "%04zu": at least four digits, of a number of 64 bits.
unfoldable pub offset_text : ℕ → List ℕ
unfolding decimal zeros
offset_text offset =
    let digits = decimal (offset % 2 ^ 64 + 1) (offset % 2 ^ 64) in
    zeros (4 - length digits) ++ digits

-- " %02x" of each byte of a row.
unfoldable pub bytes_text : List ℕ → List ℕ
bytes_text [] = []
bytes_text (b ∷ bytes) = b' ' ∷ digit (b / 16) ∷ digit (b % 16) ∷ bytes_text bytes

-- `row_buf` when a row is complete.
unfoldable pub row_text : ℕ × List ℕ → List ℕ
unfolding offset_text bytes_text
row_text r = offset_text r.0 ++ bytes_text r.1

abbrev pub map : {A B : Type 0} → (A → B) → List A → List B
map f [] = []
map f (x ∷ xs) = f x ∷ map f xs

-- The lines of `debug_dump_ptr`.
unfoldable pub dump_text : ℕ → ℕ → List ℕ → List (List ℕ)
unfolding row_text
dump_text debug_level level bytes =
    map row_text (dump_ptr (λ offset. length (offset_text offset)) debug_level level bytes)

abbrev pub digit_value : ℕ → ℕ
digit_value c = if ltb c b'a' then c - b'0' else c - b'a' + 10

-- The bytes behind the offset, two digits each after a space.
unfoldable pub read_bytes : List ℕ → List ℕ
read_bytes (space ∷ high ∷ low ∷ rest) = (digit_value high * 16 + digit_value low) ∷ read_bytes rest
read_bytes _ = []

-- The offset and the bytes of a row; `offset` is what its digits so far stand for.
unfoldable pub read_from : ℕ → List ℕ → ℕ × List ℕ
unfolding read_bytes
read_from offset [] = (offset, [])
read_from offset (c ∷ rest) =
    let next = read_from (offset * 10 + digit_value c) rest in
    if c == b' ' then (offset, read_bytes (c ∷ rest)) else next
