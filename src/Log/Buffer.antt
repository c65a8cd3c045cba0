-- ===== src/Log/Buffer.antt =====
-- What `debug_dump_ptr` writes of a buffer in memory.
use Prim.Native.Nat.{min}
use tag_sim.Common.{
  ◌%◌, inr, inl, Bool-cases, ℕ, zero, suc, ◌+◌, ◌*◌, ◌-◌, ◌^◌, ◌≤◌, ◌<◌, ◌≡◌, refl, ap, ◌∙◌, sym,
  subst, true, false, List, [], ◌∷◌, ◌++◌, ltb, length, take, drop, All, arith, ◌==◌, ◌/◌,
  if◌then◌else◌, leb, pos, negsuc,
}
use tag_sim.Common.Int.{◌-ℤ◌}
use tag_sim.Helpers.{intptr, ptr_before}
use tag_sim.Log.{dump_ptr, dump_rows}
use tag_sim.Log.Dump.{Laid, joined, row_split}
use tag_sim.Log.Text.{dump_text, read_from, map, row_text, bytes_text, offset_text}
use tag_sim.Log.Read.{dump_text-read, width, offset_narrow, IsByte}
use tag_sim.Log.Memory.{dump_length, dump_buffer, dump_columns, dump_lines}

-- The `n` bytes from an address on.
abbrev pub bytes_from : (ℕ → ℕ) → ℕ → ℕ → List ℕ
bytes_from mem start zero = []
bytes_from mem start (suc n) = mem start ∷ bytes_from mem (start + 1) n

inside-ptr_before : (cur end : ℕ) → 0 < cur → cur < end → end < 2 ^ 63 → ptr_before cur end ≡ true
unfolding ptr_before
inside-ptr_before cur end given within low = ground arith

end-ptr_before : (end : ℕ) → ptr_before end end ≡ false
unfolding ptr_before
end-ptr_before end = ground arith

length-bytes_from : (mem : ℕ → ℕ) (cur n : ℕ) → length (bytes_from mem cur n) ≡ n
length-bytes_from mem cur zero = refl
length-bytes_from mem cur (suc n) = omega (arith, length-bytes_from mem (cur + 1) n)

bytes_from-IsByte :
    (mem : ℕ → ℕ) (cur n : ℕ) → ((a : ℕ) → IsByte (mem a)) → All IsByte (bytes_from mem cur n)
bytes_from-IsByte mem cur zero bytes = tt
bytes_from-IsByte mem cur (suc n) bytes = (bytes cur, bytes_from-IsByte mem (cur + 1) n bytes)

bytes_from-same :
    (mem : ℕ → ℕ) {a b m n : ℕ} → a ≡ b → m ≡ n → bytes_from mem a m ≡ bytes_from mem b n
bytes_from-same mem {a} {b} {m} {n} e f =
    ap (λ a. bytes_from mem a m) e ∙ ap (λ k. bytes_from mem b k) f

drop-bytes_from :
    (mem : ℕ → ℕ) (k cur n : ℕ)
    → drop k (bytes_from mem cur n) ≡ bytes_from mem (cur + min k n) (n - k)
drop-bytes_from mem zero cur n = bytes_from-same mem (omega arith) (omega arith)
drop-bytes_from mem (suc k) cur zero =
    bytes_from-same mem {m = 0} {n = 0 - suc k} refl (omega arith)
drop-bytes_from mem (suc k) cur (suc n) =
    drop-bytes_from mem k (cur + 1) n ∙ bytes_from-same mem (omega arith) (omega arith)

module _ (mem : ℕ → ℕ) (end : ℕ) (low : end < 2 ^ 63) where
  dump_columns-take :
      (columns cur n row_offset : ℕ)
      → 0 < cur
      → cur + n ≡ end
      → row_offset + columns * 3 ≤ 300
      → dump_columns mem end columns cur row_offset
        ≡ (bytes_text (take columns (bytes_from mem cur n)), cur + min columns n)
  unfolding dump_columns bytes_text
  dump_columns-take zero cur n row_offset given reach room = ap (λ a. ([], a)) (omega arith)
  dump_columns-take (suc columns) cur zero row_offset given reach room =
      let over : ptr_before cur end ≡ false =
        subst (λ a. ptr_before a end ≡ false) (sym (let e : cur ≡ end = omega arith in e))
          (end-ptr_before end) in
      rw over (ap (λ a. ([], a)) (omega arith))
  dump_columns-take (suc columns) cur (suc n) row_offset given reach room =
      let roomy : ltb row_offset 301 ≡ true = ground arith in
      let next : (cur + 1) % 2 ^ 64 ≡ cur + 1 = omega arith in
      rw
        (
          inside-ptr_before cur end given (omega arith) low,
          roomy,
          next,
          dump_columns-take columns (cur + 1) n (row_offset + 3) (omega arith) (omega arith)
              (omega arith),
        )
        (ap (λ a. (bytes_text (take (suc columns) (bytes_from mem cur (suc n))), a)) (omega arith))

  dump_lines-rows :
      (rows row cur n : ℕ)
      → 0 < cur
      → cur + n ≡ end
      → dump_lines mem end rows row cur
        ≡ map row_text (dump_rows width rows row (bytes_from mem cur n))
  unfolding dump_lines dump_rows row_text
  dump_lines-rows zero row cur n given reach = refl
  dump_lines-rows (suc rows) row cur n given reach =
      let room : width (row * 16) + 16 * 3 ≤ 300 = omega (arith, offset_narrow (row * 16)) in
      rw
        (
          dump_columns-take 16 cur n (width (row * 16)) given reach room,
          row_split width 16 (width (row * 16)) (bytes_from mem cur n) room,
          drop-bytes_from mem 16 cur n,
        )
        (ap (λ l. (offset_text (row * 16) ++ bytes_text (take 16 (bytes_from mem cur n))) ∷ l)
          (dump_lines-rows rows (suc row) (cur + min 16 n) (n - 16) (omega arith) (omega arith)))

pub data_len_lem :
    (start end : ℕ)
    → start < 2 ^ 63
    → end < 2 ^ 63
    → (intptr end -ℤ intptr start)
      ≡ (if leb start end then pos (end - start) else negsuc (start - end - 1))
unfolding ◌-ℤ◌
data_len_lem start end low high = ground arith

dump_buffer-text :
    (mem : ℕ → ℕ) (debug_level level start end : ℕ)
    → 0 < start
    → start < end
    → end < 2 ^ 63
    → dump_buffer mem debug_level level start end
      ≡ dump_text debug_level level (bytes_from mem start (end - start))
unfolding dump_buffer dump_length dump_text dump_ptr
dump_buffer-text mem debug_level level start end given within low =
    let n = end - start in
    let some_start : (start == 0) ≡ false = ground arith in
    let some_end : (end == 0) ≡ false = ground arith in
    let ordered : leb start end ≡ true = ground arith in
    let some_bytes : (n == 0) ≡ false = ground arith in
    elim (Bool-cases (leb level debug_level)) [
      | inl printed ↦ rw printed refl
      | inr silent ↦
          rw
            (
              silent,
              some_start,
              some_end,
              data_len_lem start end (omega arith) low,
              ordered,
              length-bytes_from mem start n,
              some_bytes,
            )
            (dump_lines-rows mem end low ((n + 15) / 16) 0 start n given (omega arith))
    ]

-- At a level above `debug_level`, for two addresses in the lower half of the address space, neither
-- null and the first before the second: the lines that the dump writes are read back as rows of at most
-- 16 bytes whose offsets are 0, 16, 32 and so on, and the bytes of these rows are those in memory from
-- the first address up to the second, in their order.
pub dump_buffer-read :
    (mem : ℕ → ℕ) (debug_level level start end : ℕ)
    → ((a : ℕ) → IsByte (mem a))
    → 0 < start
    → start < end
    → end < 2 ^ 63
    → debug_level < level
    → (joined (map (read_from 0) (dump_buffer mem debug_level level start end))
        ≡ bytes_from mem start (end - start))
      × Laid 0 (map (read_from 0) (dump_buffer mem debug_level level start end))
dump_buffer-read mem debug_level level start end bytes given within low above =
    let n = end - start in
    rw (dump_buffer-text mem debug_level level start end given within low) (
      dump_text-read debug_level level (bytes_from mem start n)
        (bytes_from-IsByte mem start n bytes) (omega (arith, length-bytes_from mem start n)) above)
