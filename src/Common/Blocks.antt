-- ===== src/Common/Blocks.antt =====
-- The allocator's blocks in use, as lists of addresses.
use tag_sim.Common.Int.{ℤ, pos, ◌==ℤ◌}
use tag_sim.Common.Tests.{if◌then◌else◌}
use mathlib.Core.List.{List, [], ◌∷◌}
use mathlib.Core.Option.{Option, none, some}

-- One block less; `none` is a `free` of a block that is not in use.
abbrev pub remove : ℤ → List ℤ → Option (List ℤ)
remove p [] = none
remove p (q ∷ rest) =
    if p ==ℤ q then some rest else (elim (remove p rest) [ none ↦ none | some l ↦ some (q ∷ l) ])

-- The result `p` of `malloc`, which is null if there is no memory.
abbrev pub take_block : ℤ → Option (List ℤ) → Option (List ℤ)
take_block p none = none
take_block p (some l) = if p ==ℤ pos 0 then some l else some (p ∷ l)

abbrev pub free_block : ℤ → Option (List ℤ) → Option (List ℤ)
free_block p none = none
free_block p (some l) = remove p l
