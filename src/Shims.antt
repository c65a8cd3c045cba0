-- ===== src/Shims.antt =====
-- The atomic operations of src/util/shims.h on a 32-bit cell, on Windows and elsewhere.
pub mod Threads
use tag_sim.Common.{
  Bool-cases, inl, inr, if◌then◌else◌, ℕ, ◌+◌, ◌-◌, ◌%◌, ◌<◌, ◌≡◌, refl, Bool, true, false, ◌==◌,
  arith,
}

abbrev pub word : ℕ
word = 4294967296

-- What the macros rest on. Each operation takes the cell first; its result is the new cell and what the
-- call returns.
pub record Interlocked : Type 0 where
  -- `_InterlockedAdd`, of the cell and the value
  pub add : ℕ → ℕ → ℕ × ℕ
  -- `InterlockedCompareExchange`, of the cell, the exchange and the comparand
  pub compare_exchange : ℕ → ℕ → ℕ → ℕ × ℕ

-- `atomic_fetch_add_explicit`, `atomic_fetch_sub_explicit` and
-- `atomic_compare_exchange_strong_explicit`, which also stores to `*expected`.
pub record Atomics : Type 0 where
  pub fetch_add : ℕ → ℕ → ℕ × ℕ
  pub fetch_sub : ℕ → ℕ → ℕ × ℕ
  pub exchange : ℕ → ℕ → ℕ → ℕ × ℕ × Bool
  -- `atomic_load_explicit`, and `atomic_store_explicit` of the cell and the value
  pub load : ℕ → ℕ
  pub store : ℕ → ℕ → ℕ

-- The documented behaviour: the sum is stored and returned; the comparand decides what is stored, and
-- the cell's value before that is returned.
pub record IsInterlocked (i : Interlocked) : Type 0 where
  pub adds : (cell value : ℕ) → i.add cell value ≡ ((cell + value) % word, (cell + value) % word)
  pub exchanges :
      (cell desired comparand : ℕ)
      → i.compare_exchange cell desired comparand
        ≡ (if cell == comparand then desired else cell, cell)

-- The C standard: the value before the operation is returned; a failed exchange stores the cell's value
-- to `*expected`.
pub record IsAtomics (a : Atomics) : Type 0 where
  pub adds : (cell value : ℕ) → a.fetch_add cell value ≡ ((cell + value) % word, cell)
  pub subtracts : (cell value : ℕ) → a.fetch_sub cell value ≡ ((cell + word - value) % word, cell)
  pub exchanges :
      (cell expected desired : ℕ)
      → a.exchange cell expected desired
        ≡ (if cell == expected then (desired, expected, true) else (cell, cell, false))

-- `*(ptr)`, and `*(ptr) = (value)`, whose value is the new one.
unfoldable pub windows_load : ℕ → ℕ
windows_load cell = cell

unfoldable pub windows_store : ℕ → ℕ → ℕ × ℕ
windows_store cell value = (value, value)

module _ (i : Interlocked) where
  unfoldable pub windows_fetch_add : ℕ → ℕ → ℕ × ℕ
  windows_fetch_add cell value = i.add cell value

  unfoldable pub windows_fetch_sub : ℕ → ℕ → ℕ × ℕ
  windows_fetch_sub cell value = i.add cell ((word - value) % word)

  -- The new cell, what `*expected` then holds, and the result.
  unfoldable pub windows_exchange : ℕ → ℕ → ℕ → ℕ × ℕ × Bool
  windows_exchange cell expected desired =
      let r = i.compare_exchange cell desired expected in (r.0, expected, r.1 == expected)

module _ (a : Atomics) where
  unfoldable pub posix_load : ℕ → ℕ
  posix_load cell = a.load cell

  unfoldable pub posix_store : ℕ → ℕ → ℕ
  posix_store cell value = a.store cell value

  unfoldable pub posix_fetch_add : ℕ → ℕ → ℕ × ℕ
  posix_fetch_add cell value = a.fetch_add cell value

  unfoldable pub posix_fetch_sub : ℕ → ℕ → ℕ × ℕ
  posix_fetch_sub cell value = a.fetch_sub cell value

  unfoldable pub posix_exchange : ℕ → ℕ → ℕ → ℕ × ℕ × Bool
  posix_exchange cell expected desired = a.exchange cell expected desired

module _ (i : Interlocked) (a : Atomics) where
  -- The cells after `atomic_fetch_add` and `atomic_fetch_sub`, and what these return.
  abbrev pub FetchCompared : ℕ → ℕ → Type 0
  FetchCompared cell value =
      ((windows_fetch_add i cell value).0 ≡ (posix_fetch_add a cell value).0)
      × ((windows_fetch_add i cell value).1 ≡ ((posix_fetch_add a cell value).1 + value) % word)
      × ((windows_fetch_sub i cell value).0 ≡ (posix_fetch_sub a cell value).0)
      × ((windows_fetch_sub i cell value).1
          ≡ ((posix_fetch_sub a cell value).1 + word - value) % word)

  -- The cell, the result and `*expected` after `atomic_compare_exchange_strong`.
  abbrev pub ExchangeCompared : ℕ → ℕ → ℕ → Type 0
  ExchangeCompared cell expected desired =
      ((windows_exchange i cell expected desired).0 ≡ (posix_exchange a cell expected desired).0)
      × ((windows_exchange i cell expected desired).2 ≡ (posix_exchange a cell expected desired).2)
      × ((windows_exchange i cell expected desired).1 ≡ expected)
      × ((posix_exchange a cell expected desired).1 ≡ (if cell == expected then expected else cell))

  fetch_lem :
      (cell value : ℕ)
      → IsInterlocked i
      → IsAtomics a
      → cell < word
      → value < word
      → FetchCompared cell value
  unfolding windows_fetch_add windows_fetch_sub posix_fetch_add posix_fetch_sub
  fetch_lem cell value hi ha h k =
      rw
        (
          hi.adds cell value,
          hi.adds cell ((word - value) % word),
          ha.adds cell value,
          ha.subtracts cell value,
        )
        (refl, refl, omega arith, omega arith)

  exchange_lem :
      (cell expected desired : ℕ)
      → IsInterlocked i
      → IsAtomics a
      → ExchangeCompared cell expected desired
  unfolding windows_exchange posix_exchange
  exchange_lem cell expected desired hi ha =
      rw (hi.exchanges cell desired expected, ha.exchanges cell expected desired)
        (elim (Bool-cases (cell == expected)) [
          | inl same ↦ rw same (refl, refl, refl, refl)
          | inr other ↦ rw other (refl, refl, refl, refl)
        ])

  -- On both platforms `atomic_fetch_add`, `atomic_fetch_sub` and `atomic_compare_exchange_strong` leave
  -- the same value in a cell of 32 bits. What the first two return differs by the value: on Windows it is
  -- the new value of the cell, elsewhere the old one. The third has the same result on both; on
  -- Windows `*expected` always keeps its value, elsewhere it becomes that of the cell where the two differ.
  pub atomics_compared :
      (cell value expected desired : ℕ)
      → IsInterlocked i
      → IsAtomics a
      → cell < word
      → value < word
      → FetchCompared cell value × ExchangeCompared cell expected desired
  atomics_compared cell value expected desired hi ha h k =
      (fetch_lem cell value hi ha h k, exchange_lem cell expected desired hi ha)
