-- ===== src/Tests/Shims.antt =====
-- src/util/shims.h over operations that do what is documented of them.
use tag_sim.Common.{
  some, [], pos, ◌+◌, ◌-◌, ◌%◌, ◌≡◌, refl, true, false, if◌then◌else◌, ◌==◌, arith,
}
use tag_sim.Machine.{Returned, ◌>>=◌}
use tag_sim.Shims.Threads.{
  Os, waits_for, posix_thread_create, posix_thread_join, windows_thread_create, windows_thread_join,
  join_compared,
}
use tag_sim.Shims.{
  word, Interlocked, Atomics, IsInterlocked, IsAtomics, FetchCompared, ExchangeCompared,
  atomics_compared,
}

abbrev interlocked : Interlocked
interlocked = record {
  add = λ cell value. ((cell + value) % word, (cell + value) % word);
  compare_exchange = λ cell desired comparand. (if cell == comparand then desired else cell, cell);
}

abbrev atomics : Atomics
atomics = record {
  fetch_add = λ cell value. ((cell + value) % word, cell);
  fetch_sub = λ cell value. ((cell + word - value) % word, cell);
  load = λ cell. cell;
  store = λ cell value. value;
  exchange = λ cell expected desired.
      if cell == expected then (desired, expected, true) else (cell, cell, false);
}

interlocked-IsInterlocked : IsInterlocked interlocked
interlocked-IsInterlocked = record { adds = λ c v. refl; exchanges = λ c d e. refl }

atomics-IsAtomics : IsAtomics atomics
atomics-IsAtomics = record {
  adds = λ c v. refl;
  subtracts = λ c v. refl;
  exchanges = λ c e d. refl;
}

atomics_compared_example :
    FetchCompared interlocked atomics 7 3 × ExchangeCompared interlocked atomics 7 5 9
atomics_compared_example =
    atomics_compared interlocked atomics 7 3 5 9 interlocked-IsInterlocked atomics-IsAtomics
      (omega arith) (omega arith)

-- Threads get the handle 40.
abbrev platform : Os
platform = record { sys = λ log c. pos 40; stored = λ log. pos 40 }

join_compared_example :
    Returned
      (λ _ t. waits_for t ≡ some (pos 40))
      ((posix_thread_create platform (pos 1) (pos 2) >>= λ r. posix_thread_join platform r.0) [])
    × Returned
        (λ _ t. waits_for t ≡ some (pos 1))
        ((windows_thread_create platform (pos 1) (pos 2) >>= λ r. windows_thread_join platform r.0)
          [])
join_compared_example = join_compared platform (pos 1) (pos 2) []
