-- ===== src/Common/Parts.antt =====
-- What is left of a list from an offset on, and a piece taken off it.
use tag_sim.Common.Lists.{take, drop, length, take-append-drop, take-all, drop-add, length-drop}
use Prim.Native.Nat.{ℕ, ◌+◌, ◌-◌, ◌≤◌}
use mathlib.Core.Path.{◌≡◌, ap}
use mathlib.Core.List.{List, ◌++◌}
use native.Mathlib.Omega.{arith}

module _ {ℓ} {A : Type ℓ} where
  -- What is left of `content` at `offset`, as `content` has `size` elements.
  abbrev pub piece : List A → ℕ → ℕ → List A
  piece content size offset = take (size - offset) (drop offset content)

  pub piece_lem :
      (content : List A) (size offset : ℕ)
      → size ≡ length content
      → piece content size offset ≡ drop offset content
  piece_lem content size offset whole =
      take-all (size - offset) (drop offset content)
        (omega (arith, whole, length-drop offset content))

  -- The first `n` elements and what is then left make up what was left.
  pub piece-split :
      (content : List A) (size offset n : ℕ)
      → size ≡ length content
      → take n (piece content size offset) ++ drop (offset + n) content ≡ drop offset content
  piece-split content size offset n whole =
      rw (piece_lem content size offset whole, drop-add offset n content)
        (take-append-drop n (drop offset content))

  pub piece-bound :
      (content : List A) (size offset n : ℕ)
      → size ≡ length content
      → offset ≤ size
      → n ≤ length (piece content size offset)
      → offset + n ≤ size
  piece-bound content size offset n whole within bound = omega (
    arith,
    whole,
    within,
    length-drop offset content,
    ap length (piece_lem content size offset whole),
  )
