-- ===== src/Log.antt =====
-- src/util/debug.c: the level, the filter of the messages and the dump of a buffer.
pub mod Dump
pub mod Text
pub mod Read
pub mod Message
pub mod Memory
pub mod Buffer
pub mod Warning
use Prim.Native.String.{String}
use tag_sim.Common.{
  ℕ, zero, suc, ◌+◌, ◌*◌, ◌/◌, ◌≤◌, ◌<◌, ◌≡◌, ◌≢◌, refl, ap, ◌∙◌, sym, Bool, true, false, ◌||◌,
  if◌then◌else◌, List, [], ◌∷◌, ◌++◌, append_assoc, length, ltb, leb, ◌==◌, arith, Bool-cases, inl,
  inr,
}

-- `debug_level_t`
abbrev pub debug_warn : ℕ
debug_warn = 1

abbrev pub debug_info : ℕ
debug_info = 2

abbrev pub debug_detail : ℕ
debug_detail = 3

abbrev pub debug_flood : ℕ
debug_flood = 4

abbrev pub debug_error : ℕ
debug_error = 1000

-- `debug_set_level`: the new value of `debug_level`.
unfoldable pub set_level : ℕ → ℕ
set_level level =
    if ltb level debug_warn
    then debug_warn
    else if ltb debug_flood level
    then debug_flood
    else level

-- `debug_get_level`
unfoldable pub get_level : ℕ → ℕ
get_level debug_level = debug_level

-- The `switch` of `debug_impl`.
unfoldable pub prefix : ℕ → String
prefix level =
    if level == debug_warn
    then "WARN"
    else if level == debug_info
    then "INFO"
    else if level == debug_detail
    then "DETAIL"
    else if level == debug_flood
    then "FLOOD"
    else if level == debug_error
    then "ERROR"
    else "UNKNOWN"

-- Whether `debug_impl` prints a message of the level.
unfoldable pub prints : ℕ → ℕ → Bool
prints debug_level level = leb level debug_level || (level == debug_error)

-- Whether `warn_do`, `info_do`, `detail_do` or `flood_do` of the level runs what follows it.
unfoldable pub does : ℕ → ℕ → Bool
unfolding get_level
does debug_level level = leb (get_level debug_level) level

-- `width n` is the result of `snprintf` for the offset `n` by `%04zu`; that for a byte is 3.
module _ (width : ℕ → ℕ) where
  -- The loop over the columns: the bytes of the row, and those that are left.
  unfoldable pub dump_row : ℕ → ℕ → List ℕ → List ℕ × List ℕ
  dump_row zero row_offset bytes = ([], bytes)
  dump_row (suc columns) row_offset [] = ([], [])
  dump_row (suc columns) row_offset (b ∷ bytes) =
      let rest = dump_row columns (row_offset + 3) bytes in
      if ltb row_offset 301 then (b ∷ rest.0, rest.1) else ([], b ∷ bytes)

  -- The loop over the rows: the offset and the bytes of each.
  unfoldable pub dump_rows : ℕ → ℕ → List ℕ → List (ℕ × List ℕ)
  dump_rows zero row bytes = []
  dump_rows (suc rows) row bytes =
      let r = dump_row 16 (width (row * 16)) bytes in (row * 16, r.0) ∷ dump_rows rows (suc row) r.1

  -- `debug_dump_ptr` of the bytes between two pointers that are not null.
  unfoldable pub dump_ptr : ℕ → ℕ → List ℕ → List (ℕ × List ℕ)
  dump_ptr debug_level level bytes =
      if leb level debug_level
      then []
      else if length bytes == 0
      then []
      else dump_rows ((length bytes + 15) / 16) 0 bytes
