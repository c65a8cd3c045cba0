-- ===== src/Tests/Clock.antt =====
-- src/util/time_utils.c at a concrete instant and a concrete sleep.
use tag_sim.Common.{◌+◌, ◌*◌, ◌/◌, ◌%◌, ◌≡◌, refl, pos, negsuc, arith}
use tag_sim.Clock.Sleep.{Slept, sleeps_compared}
use tag_sim.Clock.{
  windows_sleep_ms, sleep_ms, posix_time_ms, windows_time_ms, filetime, clocks_differ,
}

clocks_differ_example :
    (posix_time_ms 1700000000 250999 ≡ pos (1700000000 * 1000 + 250999 / 1000))
    × (windows_time_ms
          (filetime 1700000000 250999 % 4294967296)
          (filetime 1700000000 250999 / 4294967296)
        ≡ pos (1700000000 * 1000 + 250999 / 1000 + 11644473600000))
clocks_differ_example = clocks_differ 1700000000 250999 (omega arith) (omega arith)

-- A negative time gives a negative time.
negative_sleep : sleep_ms (negsuc 1499) ≡ (negsuc 0, negsuc 499999)
unfolding sleep_ms
negative_sleep = refl

-- A sleep of -1 ms is `INFINITE` on Windows.
sleep_for_good : windows_sleep_ms (negsuc 0) ≡ (4294967295, pos 1)
unfolding windows_sleep_ms
sleep_for_good = refl

sleeps_compared_example :
    Slept (negsuc 1499) (sleep_ms (negsuc 1499)) (windows_sleep_ms (negsuc 1499)).0
sleeps_compared_example = sleeps_compared (negsuc 1499) (omega arith)
