-- ===== src/Clock.antt =====
-- src/util/time_utils.c: the sleep and the clock on POSIX and on Windows.
pub mod Sleep
use tag_sim.Common.{
  ◌-◌, ℕ, zero, suc, ◌+◌, ◌*◌, ◌/◌, ◌%◌, ◌<◌, ◌≡◌, refl, ap, ◌∙◌, if◌then◌else◌, ℤ, pos, negsuc,
  ltb, arith,
}

-- The opposite of a natural number.
abbrev pub opposite : ℕ → ℤ
opposite zero = pos zero
opposite (suc n) = negsuc n

-- `/` and `%` of C on signed numbers, with a positive divisor: they round towards 0.
abbrev pub quotient : ℤ → ℕ → ℤ
quotient (pos n) d = pos (n / d)
quotient (negsuc n) d = opposite ((n + 1) / d)

abbrev pub remainder : ℤ → ℕ → ℤ
remainder (pos n) d = pos (n % d)
remainder (negsuc n) d = opposite ((n + 1) % d)

abbrev pub times : ℤ → ℕ → ℤ
times (pos n) k = pos (n * k)
times (negsuc n) k = opposite ((n + 1) * k)

-- The conversion to `int64_t`.
abbrev pub int64 : ℕ → ℤ
int64 n =
    let low = n % 18446744073709551616 in
    if ltb low 9223372036854775808 then pos low else opposite (18446744073709551616 - low)

-- `util_sleep_ms`, POSIX: the seconds and microseconds that `select` is given.
unfoldable pub sleep_ms : ℤ → ℤ × ℤ
sleep_ms ms = (quotient ms 1000, times (remainder ms 1000) 1000)

-- `util_sleep_ms`, Windows: what `Sleep` is given, as a `DWORD`, and the result.
unfoldable pub windows_sleep_ms : ℤ → ℕ × ℤ
windows_sleep_ms (pos n) = (n % 4294967296, pos 1)
windows_sleep_ms (negsuc n) = (4294967295 - n % 4294967296, pos 1)

-- `util_time_ms`, POSIX, of the time after the epoch that `gettimeofday` stored.
unfoldable pub posix_time_ms : ℕ → ℕ → ℤ
posix_time_ms tv_sec tv_usec = int64 (tv_sec * 1000 + tv_usec / 1000)

-- `util_time_ms`, Windows, of the halves of the `FILETIME`.
unfoldable pub windows_time_ms : ℕ → ℕ → ℤ
windows_time_ms low high = quotient (int64 (low + high * 4294967296)) 10000

-- `GetSystemTimeAsFileTime` counts tenths of a microsecond from the start of 1601, which is this many
-- seconds before the epoch of `gettimeofday`.
abbrev pub seconds_1601 : ℕ
seconds_1601 = 11644473600

abbrev pub filetime : ℕ → ℕ → ℕ
filetime sec usec = (sec + seconds_1601) * 10000000 + usec * 10

-- A sleep of `ms` milliseconds, not negative, waits for just that long, and the microseconds stay
-- below a second.
pub record Waits (ms : ℕ) (tv : ℤ × ℤ) : Type 0 where
  pub sec : ℕ
  pub usec : ℕ
  pub stored : tv ≡ (pos sec, pos usec)
  pub whole : sec * 1000000 + usec ≡ ms * 1000
  pub below_second : usec < 1000000

-- For a time that is not negative, the seconds and microseconds that `select` is given make up exactly
-- that many milliseconds, with the microseconds below a second.
pub sleep_ms-Waits : (ms : ℕ) → Waits ms (sleep_ms (pos ms))
unfolding sleep_ms
sleep_ms-Waits ms = record {
  sec = ms / 1000;
  usec = ms % 1000 * 1000;
  stored = refl;
  whole = ground arith;
  below_second = ground arith;
}

int64_small : (n : ℕ) → n < 9223372036854775808 → int64 n ≡ pos n
int64_small n small = ground arith

-- At one instant, given as seconds and microseconds after the epoch of `gettimeofday`, less than
-- 100000000000 seconds of them and with the microseconds below a second, the POSIX clock reads
-- `sec * 1000 + usec / 1000`, and the Windows clock, from the two halves of the `FILETIME` of that
-- instant, reads 11644473600000 milliseconds more.
pub clocks_differ :
    (sec usec : ℕ)
    → sec < 100000000000
    → usec < 1000000
    → (posix_time_ms sec usec ≡ pos (sec * 1000 + usec / 1000))
      × (windows_time_ms (filetime sec usec % 4294967296) (filetime sec usec / 4294967296)
          ≡ pos (sec * 1000 + usec / 1000 + 11644473600000))
unfolding posix_time_ms windows_time_ms
clocks_differ sec usec h k =
    let whole : filetime sec usec % 4294967296 + filetime sec usec / 4294967296 * 4294967296
        ≡ filetime sec usec =
      omega arith in
    (
      int64_small _ (omega arith),
      ap (λ n. quotient (int64 n) 10000) whole
          ∙ ap (λ z. quotient z 10000) (int64_small (filetime sec usec) (omega arith))
          ∙ ap pos (omega arith),
    )
