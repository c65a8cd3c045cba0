-- ===== src/Log/Warning.antt =====
-- What `debug_dump_ptr` writes where it shows no bytes.
use tag_sim.Common.{
  inr, inl, Bool-cases, ℕ, ◌-◌, ◌^◌, ◌≤◌, ◌<◌, ◌≡◌, refl, true, false, List, [], ◌∷◌, ◌++◌, arith,
  ◌==◌, ◌≢◌, ◌||◌, leb,
}
use tag_sim.Common.Int.{◌-ℤ◌}
use tag_sim.Common.Texts.{codes}
use tag_sim.Helpers.{intptr}
use tag_sim.Log.{set_level, prints, debug_error}
use tag_sim.Log.Message.{Lines, warn, message}
use Prim.Native.String.{String}
use tag_sim.Log.Dump.{set_level-prints}
use tag_sim.Log.Memory.{dump_length, dump_buffer}
use tag_sim.Log.Buffer.{data_len_lem}

-- The pointers are no buffer: one of them is null, or there is nothing between them.
abbrev pub NoBuffer : ℕ → ℕ → Type 0
NoBuffer start end = ((start == 0) || ((end == 0) || leb end start)) ≡ true

-- A warning is printed at each level that can be set.
warn_line :
    (asked : ℕ) (func : String) (line : ℕ) (template : String)
    → (text : List ℕ) × (warn (set_level asked) func line template ≡ (codes "WARN" ++ text) ∷ [])
unfolding warn message
warn_line asked func line template = rw (set_level-prints asked).1 (_, refl)

dump_length-warning :
    (mem : ℕ → ℕ) (asked start end : ℕ)
    → start < 2 ^ 63
    → end ≤ start
    → (text : List ℕ) × (dump_length mem (set_level asked) (intptr end -ℤ intptr start) start end
        ≡ (codes "WARN" ++ text) ∷ [])
unfolding dump_length
dump_length-warning mem asked start end low apart =
    rw (data_len_lem start end low (omega arith)) (elim (Bool-cases (leb start end)) [
      | inl same ↦
          let nothing : (end - start == 0) ≡ true = ground arith in
          rw (same, nothing) (warn_line asked _ _ _)
      | inr before ↦ rw before (warn_line asked _ _ _)
    ])

-- Why a dump shows no bytes, with the level `debug_level`: it is silent where messages are printed, or there
-- is no buffer.
pub data Unshown (debug_level level start end : ℕ) : Type 0 where
  printed :
      level ≢ debug_error → prints debug_level level ≡ true → Unshown debug_level level start end
  absent : debug_level < level → NoBuffer start end → Unshown debug_level level start end

-- What it writes: nothing, or one line, which is a warning.
abbrev pub Instead :
    {debug_level level start end : ℕ} → Unshown debug_level level start end → Lines → Type 0
Instead (printed other shown) lines = lines ≡ []
Instead (absent above nothing) lines = (text : List ℕ) × (lines ≡ (codes "WARN" ++ text) ∷ [])

-- With a level that `debug_set_level` has set, and two pointers in the lower half of the address space: at
-- a level other than `DEBUG_ERROR` at which messages are printed, a dump writes nothing; at a level above
-- the one that is set, where one of the pointers is null or the second is not behind the first, it writes
-- one line, which is a warning.
pub dump_buffer-warning :
    (mem : ℕ → ℕ) (asked level start end : ℕ) (why : Unshown (set_level asked) level start end)
    → start < 2 ^ 63
    → end < 2 ^ 63
    → Instead why (dump_buffer mem (set_level asked) level start end)
unfolding dump_buffer prints
dump_buffer-warning mem asked level start end (printed other shown) low high = ground arith
dump_buffer-warning mem asked level start end (absent above nothing) low high =
    let silent : leb level (set_level asked) ≡ false = ground arith in
    rw silent (elim (Bool-cases ((start == 0) || (end == 0))) [
      | inl null ↦ rw null (warn_line asked _ _ _)
      | inr given ↦ rw given (dump_length-warning mem asked start end low (ground arith))
    ])
