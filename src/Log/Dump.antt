-- ===== src/Log/Dump.antt =====
-- The dump shows the whole buffer, at the levels where the messages are silent.
use Prim.Native.Nat.{max, min}
use tag_sim.Common.{
  ◌||◌, ◌&&◌, ℕ, zero, suc, ◌+◌, ◌*◌, ◌/◌, ◌≤◌, ◌<◌, ◌≡◌, ◌≢◌, refl, ap, ◌∙◌, true, false, List, [],
  ◌∷◌, ◌++◌, take, drop, length-take, length-drop, take-append-drop, subst, length, ltb, leb, ◌==◌,
  arith,
}
use tag_sim.Log.{
  does, debug_error, debug_warn, debug_flood, set_level, prints, dump_row, dump_rows, dump_ptr,
}

abbrev pub joined : List (ℕ × List ℕ) → List ℕ
joined [] = []
joined (r ∷ rows) = r.1 ++ joined rows

-- Rows of at most 16 bytes whose offsets go up by 16 from `offset`.
abbrev pub Laid : ℕ → List (ℕ × List ℕ) → Type 0
Laid offset [] = Unit {0}
Laid offset (r ∷ rows) = (r.0 ≡ offset) × (length r.1 ≤ 16) × Laid (offset + 16) rows

-- The row is `take`, and what is left `drop`.
abbrev pub split_at : ℕ → List ℕ → List ℕ × List ℕ
split_at n bytes = (take n bytes, drop n bytes)

module _ (width : ℕ → ℕ) where
  pub row_split :
      (columns row_offset : ℕ) (bytes : List ℕ)
      → row_offset + columns * 3 ≤ 300
      → dump_row width columns row_offset bytes ≡ split_at columns bytes
  unfolding dump_row
  row_split zero row_offset bytes fits = refl
  row_split (suc columns) row_offset [] fits = refl
  row_split (suc columns) row_offset (b ∷ bytes) fits =
      let room : ltb row_offset 301 ≡ true = ground arith in
      rw (room, row_split columns (row_offset + 3) bytes (omega arith)) refl

  rows_whole :
      (rows row : ℕ) (bytes : List ℕ)
      → ((n : ℕ) → width n ≤ 20)
      → length bytes ≤ rows * 16
      → (joined (dump_rows width rows row bytes) ≡ bytes)
        × Laid (row * 16) (dump_rows width rows row bytes)
  unfolding dump_rows
  rows_whole zero row [] narrow enough = (refl, tt)
  rows_whole zero row (b ∷ bytes) narrow enough = absurd (omega arith)
  rows_whole (suc rows) row bytes narrow enough =
      let rest =
        rows_whole rows (suc row) (drop 16 bytes) narrow (omega (arith, length-drop 16 bytes)) in
      rw (row_split 16 (width (row * 16)) bytes (omega (arith, narrow (row * 16)))) (
        ap (λ r. take 16 bytes ++ r) rest.0 ∙ take-append-drop 16 bytes,
        (
          refl,
          omega (arith, length-take 16 bytes),
          subst (λ o. Laid o (dump_rows width rows (suc row) (drop 16 bytes))) (omega arith) rest.1,
        ),
      )

-- At a level above `debug_level`, if the offsets are printed in at most 20 characters, the dump of a
-- buffer shows all its bytes in their order, in rows of at most 16 whose offsets are 0, 16, 32 and so
-- on.
pub dump_ptr-Laid :
    (width : ℕ → ℕ) (debug_level level : ℕ) (bytes : List ℕ)
    → ((n : ℕ) → width n ≤ 20)
    → debug_level < level
    → (joined (dump_ptr width debug_level level bytes) ≡ bytes)
      × Laid 0 (dump_ptr width debug_level level bytes)
unfolding dump_ptr
dump_ptr-Laid width debug_level level [] narrow above =
    let shown : leb level debug_level ≡ false = ground arith in rw shown (refl, tt)
dump_ptr-Laid width debug_level level (b ∷ bytes) narrow above =
    let shown : leb level debug_level ≡ false = ground arith in
    let some_bytes : (length (b ∷ bytes) == 0) ≡ false = ground arith in
    let whole =
      rows_whole width ((length (b ∷ bytes) + 15) / 16) 0 (b ∷ bytes) narrow (omega arith) in
    rw (shown, some_bytes) whole

-- At a level other than `DEBUG_ERROR` at which messages are printed, a dump shows nothing.
pub dump_silent_when_printed :
    (width : ℕ → ℕ) (debug_level level : ℕ) (bytes : List ℕ)
    → level ≢ debug_error
    → prints debug_level level ≡ true
    → dump_ptr width debug_level level bytes ≡ []
unfolding dump_ptr prints
dump_silent_when_printed width debug_level level bytes other printed = ground arith

-- The level that is set is the one asked for, brought between `DEBUG_WARN` and `DEBUG_FLOOD`, so that
-- messages at `DEBUG_WARN` and `DEBUG_ERROR` are always printed.
pub set_level-prints :
    (level : ℕ)
    → (set_level level ≡ max debug_warn (min level debug_flood))
      × (prints (set_level level) debug_warn ≡ true)
      × (prints (set_level level) debug_error ≡ true)
unfolding set_level prints
set_level-prints level = ground arith

-- With a level that `debug_set_level` has set, at each level other than `DEBUG_ERROR`: a message is
-- printed, or what follows `warn_do` and its kin of that level runs, and both just at the level that is set.
-- So what follows `flood_do` always runs, though messages at `DEBUG_FLOOD` are printed only where that
-- level or one above it was asked for; and what follows `warn_do` runs only where no level above
-- `DEBUG_WARN` was asked for, though messages at `DEBUG_WARN` are always printed.
pub set_level-does :
    (asked level : ℕ)
    → level ≢ debug_error
    → ((prints (set_level asked) level || does (set_level asked) level) ≡ true)
      × ((prints (set_level asked) level && does (set_level asked) level)
          ≡ (level == set_level asked))
      × (does (set_level asked) debug_flood ≡ true)
      × (prints (set_level asked) debug_flood ≡ leb debug_flood asked)
      × (does (set_level asked) debug_warn ≡ leb asked debug_warn)
      × (prints (set_level asked) debug_warn ≡ true)
unfolding set_level does prints
set_level-does asked level other = ground arith
