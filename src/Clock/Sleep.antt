-- ===== src/Clock/Sleep.antt =====
-- util_sleep_ms of src/util/time_utils.c on POSIX and on Windows, for each `int`.
use tag_sim.Common.{
  sym, ◌∙◌, ap, zero, ℕ, suc, ◌+◌, ◌*◌, ◌/◌, ◌%◌, ◌<◌, ◌≤◌, ◌≡◌, ℤ, pos, negsuc, arith,
}
use tag_sim.Clock.{times, opposite, sleep_ms, windows_sleep_ms, Waits, sleep_ms-Waits}

-- The numbers of an `int` of 32 bits.
abbrev pub IsInt : ℤ → Type 0
IsInt (pos n) = n < 2147483648
IsInt (negsuc n) = n < 2147483648

-- The seconds and microseconds make up `ms` milliseconds before now, and are not both 0.
pub record IsBefore (ms : ℕ) (tv : ℤ × ℤ) : Type 0 where
  pub sec : ℕ
  pub usec : ℕ
  pub stored : tv ≡ (opposite sec, opposite usec)
  pub whole : sec * 1000000 + usec ≡ ms * 1000
  pub some_time : 0 < sec + usec

-- What `select` and `Sleep` are given for a time in milliseconds.
abbrev pub Slept : ℤ → ℤ × ℤ → ℕ → Type 0
Slept (pos n) tv dword = Waits n tv × (dword ≡ n)
Slept (negsuc n) tv dword =
    IsBefore (suc n) tv × (dword + suc n ≡ 4294967296) × (2147483648 ≤ dword)

times-opposite : (m k : ℕ) → times (opposite m) k ≡ opposite (m * k)
times-opposite zero k = let none : 0 * k ≡ 0 = omega arith in ap pos none ∙ ap opposite (sym none)
times-opposite (suc m) k = ap opposite (omega arith)

-- Of an `int` that is not negative, `select` and `Sleep` are both given just that many milliseconds.
-- Of a negative one, `select` is given as much time below 0, and `Sleep` 4294967296 milliseconds less as
-- many, which are 2147483648 or more.
pub sleeps_compared : (ms : ℤ) → IsInt ms → Slept ms (sleep_ms ms) (windows_sleep_ms ms).0
unfolding sleep_ms windows_sleep_ms
sleeps_compared (pos n) h = (sleep_ms-Waits n, omega arith)
sleeps_compared (negsuc n) h = (
  record {
    sec = (n + 1) / 1000;
    usec = (n + 1) % 1000 * 1000;
    stored = ap (λ z. (opposite ((n + 1) / 1000), z)) (times-opposite ((n + 1) % 1000) 1000);
    whole = omega arith;
    some_time = omega arith;
  },
  omega arith,
  omega arith,
)
