-- ===== src/Log/Memory.antt =====
-- `debug_dump_ptr` of src/util/debug.c over memory.
use tag_sim.Common.{
  ◌%◌, ◌^◌, ℕ, zero, suc, ◌+◌, ◌*◌, ◌/◌, ◌&&◌, ◌||◌, List, [], ◌∷◌, ◌++◌, if◌then◌else◌, ltb, leb,
  ◌==◌, length, ℤ, pos, negsuc,
}
use tag_sim.Common.Int.{◌-ℤ◌}
use tag_sim.Helpers.{intptr, ptr_before}
use tag_sim.Log.Text.{offset_text, bytes_text}
use tag_sim.Log.Message.{Lines, warn}

-- `mem` has the byte at each address.
module _ (mem : ℕ → ℕ) where
  -- The loop over the columns: what it appends to `row_buf`, and `cur_buf` after it.
  unfoldable pub dump_columns : ℕ → ℕ → ℕ → ℕ → List ℕ × ℕ
  dump_columns end zero cur row_offset = ([], cur)
  dump_columns end (suc columns) cur row_offset =
      let rest = dump_columns end columns ((cur + 1) % 2 ^ 64) (row_offset + 3) in
      if ptr_before cur end && ltb row_offset 301
      then (bytes_text (mem cur ∷ []) ++ rest.0, rest.1)
      else ([], cur)

  -- The loop over the rows.
  unfoldable pub dump_lines : ℕ → ℕ → ℕ → ℕ → Lines
  unfolding dump_columns
  dump_lines end zero row cur = []
  dump_lines end (suc rows) row cur =
      let head = offset_text (row * 16) in
      let r = dump_columns end 16 cur (length head) in
      (head ++ r.0) ∷ dump_lines end rows (suc row) r.1

  -- The test of `data_len` and the loops.
  unfoldable pub dump_length : ℕ → ℤ → ℕ → ℕ → Lines
  unfolding dump_lines
  dump_length debug_level (negsuc n) start end =
      warn debug_level "debug_dump_ptr" 101
        "Called with no data to print or start_buf buffer > end_buf buffer!"
  dump_length debug_level (pos n) start end =
      if n == 0
      then warn debug_level "debug_dump_ptr" 101
          "Called with no data to print or start_buf buffer > end_buf buffer!"
      else dump_lines end ((n + 15) / 16) 0 start

  unfoldable pub dump_buffer : ℕ → ℕ → ℕ → ℕ → Lines
  unfolding dump_length
  dump_buffer debug_level level start end =
      if leb level debug_level
      then []
      else if (start == 0) || (end == 0)
      then warn debug_level "debug_dump_ptr" 94 "Called with null pointer(s) to data!"
      else dump_length debug_level (intptr end -ℤ intptr start) start end
