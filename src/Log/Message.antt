-- ===== src/Log/Message.antt =====
-- What `debug_impl` of src/util/debug.c writes, and the macros of src/util/debug.h that call it.
use Prim.Native.String.{String}
use tag_sim.Common.{ℕ, ◌+◌, Bool, List, [], ◌∷◌, ◌++◌, if◌then◌else◌}
use tag_sim.Common.Texts.{codes}
use tag_sim.Machine.{Step, done, exited}
use tag_sim.Log.{debug_error, debug_warn, prefix, prints}
use tag_sim.Log.Text.{decimal}

-- The lines on `stderr`, the first one first, without their ends.
abbrev pub Lines : Type 0
Lines = List (List ℕ)

-- `text` is what `vfprintf` makes of the template and the arguments.
unfoldable pub message : ℕ → String → ℕ → ℕ → List ℕ → Lines
unfolding prefix prints decimal
message debug_level func line level text =
    if prints debug_level level
    then (codes (prefix level)
        ++ (b' ' ∷ (codes func ++ (b':' ∷ (decimal (line + 1) line ++ (b' ' ∷ text))))))
      ∷ []
    else []

-- `warn(...)` at a line of a function.
unfoldable pub warn : ℕ → String → ℕ → String → Lines
unfolding message
warn debug_level func line template = message debug_level func line debug_warn (codes template)

-- `assert_error(COND, ...)` at a line of a function.
unfoldable pub assert_error : ℕ → String → ℕ → Bool → List ℕ → Step Lines (Unit {0})
unfolding message
assert_error debug_level func line holds text lines =
    if holds
    then done tt lines
    else exited (lines ++ message debug_level func line debug_error text)
