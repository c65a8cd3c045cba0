-- ===== src/Epoll/Heap.antt =====
-- The blocks of the program, and `free` where it may be called on a block that is not in use.
use tag_sim.Common.{Option, none, some, List, [], ◌∷◌, ℤ}
use tag_sim.Common.Blocks.{take_block, free_block}
use tag_sim.Epoll.State.{Log, malloc, free, M, note}
use tag_sim.Machine.{fault, get, ◌>>=◌}

-- The blocks in use after the calls of a log; `none` where a block was freed that was not in use.
abbrev pub live : Log → Option (List ℤ)
live [] = some []
live ((malloc n, p) ∷ log) = take_block p (live log)
live ((free p, r) ∷ log) = free_block p (live log)
live (_ ∷ log) = live log

-- What is in use after the block is freed, if it was in use; a block that was not cannot be freed.
abbrev pub free_if : Option (List ℤ) → ℤ → M (Unit {0})
free_if none p = fault
free_if (some others) p = note (free p)

unfoldable pub free_live : ℤ → M (Unit {0})
free_live p = do s ← get; free_if (free_block p (live s.log)) p
