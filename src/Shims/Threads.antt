-- ===== src/Shims/Threads.antt =====
-- The macros of src/util/shims.h for threads and mutexes, and those that read and write an atomic cell,
-- on Windows and elsewhere.
use tag_sim.Common.{
  Option, some, none, ℕ, ◌≡◌, refl, Bool, not, List, ◌∷◌, if◌then◌else◌, ℤ, pos, ◌==ℤ◌, arith,
}
use tag_sim.Machine.{Step, done, pure, ◌>>=◌, Returned}

-- The calls of the platforms. A thread, a mutex, a function and its argument are C's integers.
pub data Call : Type 0 where
  create_thread : ℤ → ℤ → Call
  wait_for_single_object : ℤ → Call
  exit_thread : ℕ → Call
  pthread_create : ℤ → ℤ → Call
  pthread_join : ℤ → Call
  pthread_exit : Call
  initialize enter leave delete : ℤ → Call
  pthread_init pthread_lock pthread_unlock pthread_destroy : ℤ → Call

-- All calls so far with their results, the latest first.
abbrev pub Log : Type 0
Log = List (Call × ℤ)

pub record Os : Type 0 where
  pub sys : Log → Call → ℤ
  -- what `pthread_create` stores, or the variable holds if it fails
  pub stored : Log → ℤ

abbrev pub M : Type 0 → Type 0
M A = Step Log A

abbrev pub null : ℤ
null = pos 0

abbrev truth : Bool → ℤ
truth holds = if holds then pos 1 else pos 0

module _ (os : Os) where
  abbrev call : Call → M ℤ
  call c log = let r = os.sys log c in done r ((c, r) ∷ log)

  -- What is then in the variable, and the value of the macro. The assignment takes in the comparison.
  unfoldable pub windows_thread_create : ℤ → ℤ → M (ℤ × ℤ)
  windows_thread_create func arg = do
    handle ← call (create_thread func arg)
    let thread = truth (not (handle ==ℤ null))
    pure (thread, thread)

  unfoldable pub windows_thread_join : ℤ → M ℤ
  windows_thread_join thread = call (wait_for_single_object thread)

  unfoldable pub windows_thread_exit : M ℤ
  windows_thread_exit = call (exit_thread 0)

  unfoldable pub posix_thread_create : ℤ → ℤ → M (ℤ × ℤ)
  posix_thread_create func arg log =
      (do r ← call (pthread_create func arg); pure (os.stored log, truth (r ==ℤ pos 0))) log

  unfoldable pub posix_thread_join : ℤ → M ℤ
  posix_thread_join thread = call (pthread_join thread)

  unfoldable pub posix_thread_exit : M ℤ
  posix_thread_exit = call pthread_exit

  unfoldable pub windows_mutex_init : ℤ → M ℤ
  windows_mutex_init mutex = call (initialize mutex)

  unfoldable pub windows_mutex_lock : ℤ → M ℤ
  windows_mutex_lock mutex = call (enter mutex)

  unfoldable pub windows_mutex_unlock : ℤ → M ℤ
  windows_mutex_unlock mutex = call (leave mutex)

  unfoldable pub windows_mutex_destroy : ℤ → M ℤ
  windows_mutex_destroy mutex = call (delete mutex)

  unfoldable pub posix_mutex_init : ℤ → M ℤ
  posix_mutex_init mutex = call (pthread_init mutex)

  unfoldable pub posix_mutex_lock : ℤ → M ℤ
  posix_mutex_lock mutex = call (pthread_lock mutex)

  unfoldable pub posix_mutex_unlock : ℤ → M ℤ
  posix_mutex_unlock mutex = call (pthread_unlock mutex)

  unfoldable pub posix_mutex_destroy : ℤ → M ℤ
  posix_mutex_destroy mutex = call (pthread_destroy mutex)

-- The thread that the latest call waits for.
abbrev pub waits_for : Log → Option ℤ
waits_for ((wait_for_single_object thread, r) ∷ log) = some thread
waits_for ((pthread_join thread, r) ∷ log) = some thread
waits_for _ = none

module _ (os : Os) (func arg : ℤ) (log : Log) where
  -- `THREAD_CREATE` and then `THREAD_JOIN` of the same variable. Elsewhere than on Windows the join waits
  -- for the thread that `pthread_create` stored. On Windows it waits for the handle 1 where
  -- `CreateThread` gave a handle, whichever it is, and for the handle 0 where it gave none.
  pub join_compared :
      Returned
        (λ _ t. waits_for t ≡ some (os.stored log))
        ((posix_thread_create os func arg >>= λ r. posix_thread_join os r.0) log)
      × Returned
          (λ _ t.
            waits_for t
            ≡ some (if os.sys log (create_thread func arg) ==ℤ null then pos 0 else pos 1))
          ((windows_thread_create os func arg >>= λ r. windows_thread_join os r.0) log)
  unfolding posix_thread_create posix_thread_join windows_thread_create windows_thread_join
  join_compared = (refl, ground arith)
