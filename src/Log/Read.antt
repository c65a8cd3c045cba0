-- ===== src/Log/Read.antt =====
-- A dump can be read back.
use Prim.Native.Nat.pow
use tag_sim.Common.{
  length-append, ℕ, zero, suc, ◌+◌, ◌*◌, ◌-◌, ◌/◌, ◌%◌, ◌^◌, ◌≤◌, ◌<◌, ◌≡◌, refl, ap, ◌∙◌, sym,
  subst, true, false, List, [], ◌∷◌, ◌++◌, append_assoc, ltb, ◌==◌, length, All, arith, Bool-cases,
  inl, inr,
}
use tag_sim.Log.{dump_row, dump_rows, dump_ptr}
use tag_sim.Log.Dump.{joined, Laid, dump_ptr-Laid}
use tag_sim.Log.Text.{
  digit, decimal, zeros, offset_text, bytes_text, row_text, map, dump_text, digit_value, read_bytes,
  read_from,
}

abbrev pub IsByte : ℕ → Type 0
IsByte b = b < 256

digit_value-digit : (d : ℕ) → d < 16 → digit_value (digit d) ≡ d
digit_value-digit d small = ground arith

digit_not_space : (d : ℕ) → (digit d == b' ') ≡ false
digit_not_space d = ground arith

read_bytes-text : (bytes : List ℕ) → All IsByte bytes → read_bytes (bytes_text bytes) ≡ bytes
unfolding read_bytes bytes_text
read_bytes-text [] small = refl
read_bytes-text (b ∷ bytes) small =
    rw
      (
        digit_value-digit (b / 16) (omega (arith, small.0)),
        digit_value-digit (b % 16) (omega arith),
        read_bytes-text bytes small.1,
      )
      (ap (λ n. n ∷ bytes) (omega arith))

read_from-bytes :
    (offset : ℕ) (bytes : List ℕ)
    → All IsByte bytes
    → read_from offset (bytes_text bytes) ≡ (offset, bytes)
unfolding read_from bytes_text
read_from-bytes offset [] small = refl
read_from-bytes offset (b ∷ bytes) small = ap (λ r. (offset, r)) (read_bytes-text (b ∷ bytes) small)

read_from-digit :
    (offset d : ℕ) (rest : List ℕ)
    → d < 16
    → read_from offset (digit d ∷ rest) ≡ read_from (offset * 10 + d) rest
unfolding read_from
read_from-digit offset d rest small = rw (digit_not_space d, digit_value-digit d small) refl

read_from-decimal :
    (fuel n : ℕ) (rest : List ℕ)
    → n < fuel
    → read_from 0 (decimal fuel n ++ rest) ≡ read_from n rest
unfolding decimal
read_from-decimal zero n rest enough = absurd (omega arith)
read_from-decimal (suc fuel) n rest enough = elim (Bool-cases (ltb n 10)) [
  | inl one ↦
      rw one
        (read_from-digit 0 (n % 10) rest (omega arith) ∙ ap (λ k. read_from k rest) (ground arith))
  | inr more ↦ rw more (
      ap (read_from 0) (append_assoc (decimal fuel (n / 10)) (digit (n % 10) ∷ []) rest)
      ∙ read_from-decimal fuel (n / 10) (digit (n % 10) ∷ rest) (ground arith)
      ∙ read_from-digit (n / 10) (n % 10) rest (omega arith)
      ∙ ap (λ k. read_from k rest) (omega arith))
]

read_from-zeros : (k : ℕ) (rest : List ℕ) → read_from 0 (zeros k ++ rest) ≡ read_from 0 rest
unfolding zeros
read_from-zeros zero rest = refl
read_from-zeros (suc k) rest =
    read_from-digit 0 0 (zeros k ++ rest) (omega arith) ∙ read_from-zeros k rest

read_from-row : (r : ℕ × List ℕ) → r.0 < 2 ^ 64 → All IsByte r.1 → read_from 0 (row_text r) ≡ r
unfolding row_text offset_text
read_from-row (offset, bytes) fits small =
    let same : offset % 2 ^ 64 ≡ offset = omega (arith, fits) in
    let digits = decimal (offset + 1) offset in
    rw same (
      ap (read_from 0) (append_assoc (zeros (4 - length digits)) digits (bytes_text bytes))
      ∙ read_from-zeros (4 - length digits) (digits ++ bytes_text bytes)
      ∙ read_from-decimal (offset + 1) offset (bytes_text bytes) (omega arith)
      ∙ read_from-bytes offset bytes small)

All-append : (xs ys : List ℕ) → All IsByte (xs ++ ys) → All IsByte xs × All IsByte ys
All-append [] ys small = (tt, small)
All-append (x ∷ xs) ys small = let rest = All-append xs ys small.1 in ((small.0, rest.0), rest.1)

-- Rows whose offsets go up by 16 from `offset` and end below the last number of 64 bits.
rows_read :
    (offset : ℕ) (rows : List (ℕ × List ℕ))
    → Laid offset rows
    → offset + length rows * 16 ≤ 2 ^ 64 + 15
    → All IsByte (joined rows)
    → map (read_from 0) (map row_text rows) ≡ rows
rows_read offset [] laid fits small = refl
rows_read offset (r ∷ rows) laid fits small =
    let parts = All-append r.1 (joined rows) small in
    rw
      (
        read_from-row r (omega (arith, laid.0, fits)) parts.0,
        rows_read (offset + 16) rows laid.2 (omega (arith, fits)) parts.1,
      )
      refl

-- A number below the power of ten has that many digits at most.
length-decimal : (k fuel n : ℕ) → n < 10 ^ suc k → length (decimal fuel n) ≤ suc k
unfolding decimal
length-decimal k zero n below = omega arith
length-decimal zero (suc fuel) n below =
    let one : ltb n 10 ≡ true = ground (arith, below, pow.suc 10 0, pow.zero 10) in
    rw one (omega arith)
length-decimal (suc k) (suc fuel) n below = elim (Bool-cases (ltb n 10)) [
  | inl one ↦ rw one (omega arith)
  | inr more ↦ rw more (
      omega (
        arith,
        length-append (decimal fuel (n / 10)) (digit (n % 10) ∷ []),
        length-decimal k fuel (n / 10) (omega (arith, below, pow.suc 10 (suc k))),
      ))
]

length-zeros : (n : ℕ) → length (zeros n) ≡ n
unfolding zeros
length-zeros zero = refl
length-zeros (suc n) = omega (arith, length-zeros n)

-- "%04zu" writes 20 characters at most.
pub offset_narrow : (n : ℕ) → length (offset_text n) ≤ 20
unfolding offset_text
offset_narrow n =
    let m = n % 2 ^ 64 in
    let digits = decimal (m + 1) m in
    omega (
      arith,
      length-append (zeros (4 - length digits)) digits,
      length-zeros (4 - length digits),
      length-decimal 19 (m + 1) m (omega arith),
    )

abbrev pub width : ℕ → ℕ
width n = length (offset_text n)

length-dump_rows : (rows row : ℕ) (bytes : List ℕ) → length (dump_rows width rows row bytes) ≡ rows
unfolding dump_rows
length-dump_rows zero row bytes = refl
length-dump_rows (suc rows) row bytes =
    let rest = dump_row width 16 (width (row * 16)) bytes in
    omega (arith, length-dump_rows rows (suc row) rest.1)

length-dump_ptr :
    (debug_level level : ℕ) (bytes : List ℕ)
    → length (dump_ptr width debug_level level bytes) * 16 ≤ length bytes + 15
unfolding dump_ptr
length-dump_ptr debug_level level bytes =
    ground (arith, length-dump_rows ((length bytes + 15) / 16) 0 bytes)

-- At a level above `debug_level`, the lines of the dump of a buffer of bytes, no longer than a number of
-- 64 bits can tell, are read back as rows of at most 16 bytes whose offsets are 0, 16, 32 and so on, and
-- the bytes of these rows are those of the buffer in their order.
pub dump_text-read :
    (debug_level level : ℕ) (bytes : List ℕ)
    → All IsByte bytes
    → length bytes ≤ 2 ^ 64
    → debug_level < level
    → (joined (map (read_from 0) (dump_text debug_level level bytes)) ≡ bytes)
      × Laid 0 (map (read_from 0) (dump_text debug_level level bytes))
unfolding dump_text
dump_text-read debug_level level bytes small fits above =
    let shown = dump_ptr-Laid width debug_level level bytes offset_narrow above in
    let rows = dump_ptr width debug_level level bytes in
    rw
      (rows_read 0 rows shown.1 (omega (arith, length-dump_ptr debug_level level bytes, fits))
        (subst (All IsByte) (sym shown.0) small))
      shown
