-- ===== src/Tests/Log.antt =====
-- src/util/debug.c over small buffers.
use tag_sim.Common.{
  ◌||◌, ◌&&◌, ◌==◌, leb, ◌++◌, ◌%◌, false, ℕ, ◌≡◌, refl, true, [], ◌∷◌, List, arith,
}
use tag_sim.Log.{set_level, does, debug_error, prefix, prints}
use tag_sim.Log.Text.{row_text, offset_text, bytes_text, decimal, zeros, map, read_from}
use tag_sim.Common.Int.{◌-ℤ◌}
use tag_sim.Common.Texts.{codes}
use tag_sim.Helpers.{ptr_before}
use tag_sim.Machine.{exited}
use tag_sim.Log.Message.{message, assert_error}
use tag_sim.Log.Memory.{dump_buffer, dump_length, dump_lines, dump_columns}
use tag_sim.Log.Buffer.{bytes_from, dump_buffer-read}
use tag_sim.Log.Warning.{absent, dump_buffer-warning}
use tag_sim.Log.Dump.{set_level-does, joined, Laid, set_level-prints}

-- Offsets of up to four digits.
abbrev four : ℕ → ℕ
four n = 4

abbrev seventeen : List ℕ
seventeen = 1 ∷ 2 ∷ 3 ∷ 4 ∷ 5 ∷ 6 ∷ 7 ∷ 8 ∷ 9 ∷ 10 ∷ 11 ∷ 12 ∷ 13 ∷ 14 ∷ 15 ∷ 16 ∷ 17 ∷ []

detail_printed : prints 3 2 ≡ true
unfolding prints
detail_printed = refl

error_prefix : prefix debug_error ≡ "ERROR"
unfolding prefix
error_prefix = refl

set_level-does_example :
    ((prints (set_level 9) 2 || does (set_level 9) 2) ≡ true)
    × ((prints (set_level 9) 2 && does (set_level 9) 2) ≡ (2 == set_level 9))
    × (does (set_level 9) 4 ≡ true)
    × (prints (set_level 9) 4 ≡ leb 4 9)
    × (does (set_level 9) 1 ≡ leb 9 1)
    × (prints (set_level 9) 1 ≡ true)
set_level-does_example = set_level-does 9 2 (λ e. omega arith)

-- The offset 16 has two digits and is padded to four; 0xbe has the digits b and e.
second_row : row_text (16, 0xbe ∷ []) ≡ b'0' ∷ b'0' ∷ b'1' ∷ b'6' ∷ b' ' ∷ b'b' ∷ b'e' ∷ []
unfolding row_text offset_text bytes_text decimal zeros
second_row = refl

-- Twenty bytes from the address 4096 on.
abbrev memory : ℕ → ℕ
memory a = a % 256

dump_buffer-read_example :
    (joined (map (read_from 0) (dump_buffer memory 1 2 4096 4116)) ≡ bytes_from memory 4096 20)
    × Laid 0 (map (read_from 0) (dump_buffer memory 1 2 4096 4116))
dump_buffer-read_example =
    dump_buffer-read memory 1 2 4096 4116 (λ a. omega arith) (omega arith) (omega arith)
      (omega arith) (omega arith)

dump_buffer-warning_example :
    (text : List ℕ) × (dump_buffer memory (set_level 0) 3 4096 0 ≡ (codes "WARN" ++ text) ∷ [])
dump_buffer-warning_example =
    dump_buffer-warning memory 0 3 4096 0 (absent (ground (arith, set_level-prints 0)) refl)
      (omega arith) (omega arith)

two_lines : dump_buffer memory 1 2 4111 4113 ≡ codes "0000 0f 10" ∷ []
unfolding dump_buffer dump_length dump_lines dump_columns ◌-ℤ◌ bytes_text offset_text ptr_before
    decimal zeros
two_lines = refl

-- A message of a level that is silent is not shown; a failed assertion always is.
assertion_shown :
    assert_error 1 "main" 12 false (codes "no") [] ≡ exited (codes "ERROR main:12 no" ∷ [])
unfolding assert_error
assertion_shown = refl

info_silent : message 1 "main" 12 2 (codes "hi") ≡ []
unfolding message
info_silent = refl
