-- ===== src/Epoll/Lifecycle.antt =====
-- What the program is waiting for once it is set up, and what sending and ending do to that.
use tag_sim.Common.{
  arith, minus_one, refl, ◌≡◌, [], ◌∷◌, if◌then◌else◌, none, some, Option, ◌==◌, true, negsuc, Bool,
  ◌==ℤ◌, ==ℤ_refl, ℤ, false, pos, ℕ,
}
use Prim.Native.String.{[]}
use tag_sim.Epoll.State.{
  buffer_size, delete, read, perror, epoll_ctl, close, malloc, Bytes, Call, Log, Os, State, fails,
  epollin, epollout, in_out, SendRequest,
}
use tag_sim.Machine.{Returned, ◌>>=◌}
use tag_sim.Epoll.Setup.{init, start_server, cleanup, free_request}
use tag_sim.Epoll.Events.{has, handle_data_event, data_read, drop_connection}
use tag_sim.Epoll.Api.{send, null}
use tag_sim.Epoll.Interest.{interest}
use tag_sim.Machine.{Exited}
use tag_sim.Epoll.Keep.{logged}
use tag_sim.Epoll.Heap.{live, free_live}
use tag_sim.Epoll.Memory.{blocks, Owned}

-- No system call fails.
abbrev pub Succeeds : Os → Type 0
Succeeds os = (log : Log) (c : Call) → fails (os.sys log c) ≡ false

-- Ready to serve: the wake pipe and the listening socket wait for input.
pub record Serving (s : State) : Type 0 where
  pub pipe : interest s.epoll_fd s.log s.wakeup_read ≡ some epollin
  pub server : interest s.epoll_fd s.log s.server_socket ≡ some epollin

-- `malloc` finds memory.
abbrev pub Allocates : Os → Type 0
Allocates os = (log : Log) (n : ℕ) → (os.sys log (malloc n) ==ℤ null) ≡ false

-- `epoll_ctl` fails for a descriptor that has just been closed (`EBADF`).
abbrev pub RefusesClosed : Os → Type 0
RefusesClosed os =
    (log : Log) (r queue fd : ℤ) (mask : ℕ)
    → os.sys ((close fd, r) ∷ log) (epoll_ctl queue delete fd mask) ≡ minus_one

-- Registered for input.
abbrev pub reads : Option ℕ → Bool
reads none = false
reads (some mask) = has mask epollin

-- A result of `read` that is no data.
abbrev pub ends : ℤ → Bool
ends (negsuc n) = true
ends (pos n) = n == 0

pub if_same {ℓ} : {A : Type ℓ} (x : A) (b : Bool) → (if b then x else x) ≡ x
if_same x true = refl
if_same x false = refl

module _ (os : Os) where
  -- Where no system call fails, `init` and then `start_server` return 0, and the reading end of the
  -- wake pipe and the listening socket are then registered for `EPOLLIN`.
  pub start_server-init :
      (port : ℕ) (s : State)
      → Succeeds os
      → Returned (λ r t. (r ≡ pos 0) × Serving t) ((init os >>= λ _. start_server os port) s)
  unfolding init start_server
  start_server-init port s good = simp good (
    refl,
    record {
      pipe = simp (good, ==ℤ_refl) (if_same (some epollin) _);
      server = simp (good, ==ℤ_refl);
    },
  )

  -- A request is accepted when none is pending, no system call fails and memory is there: `send`
  -- returns 0, and the socket is then registered for `EPOLLOUT` alone, whatever it was registered for
  -- before, so that it is no longer waited for to be readable. Other descriptors keep their entries.
  pub send_drops_input :
      (fd : ℤ) (bytes : Bytes) (s : State)
      → s.current_send_request ≡ none
      → Succeeds os
      → Allocates os
      → Returned
          (λ r t.
            (r ≡ pos 0)
            × (interest t.epoll_fd t.log fd ≡ some epollout)
            × (reads (interest t.epoll_fd t.log fd) ≡ false)
            × ((other : ℤ)
                → (fd ==ℤ other) ≡ false
                → interest t.epoll_fd t.log other ≡ interest s.epoll_fd s.log other))
          (send os fd bytes s)
  unfolding send
  send_drops_input fd bytes s idle good room =
      rw (idle, send) (simp (good, room, ==ℤ_refl) (refl, refl, refl, λ other e. rw e refl))

  drop_connection-exits : (fd : ℤ) (s : State) → RefusesClosed os → Exited (drop_connection os fd s)
  unfolding drop_connection
  drop_connection-exits fd s refuses = rw (refuses s.log (pos 0) s.epoll_fd fd in_out) tt

  data_read-exits :
      (fd : ℤ) (buffer : Bytes) (r : ℤ) (s : State)
      → RefusesClosed os
      → ends r ≡ true
      → Exited (data_read os fd buffer r s)
  unfolding data_read
  data_read-exits fd buffer (negsuc n) s refuses over =
      drop_connection-exits fd (logged (perror "read") (pos 0) s) refuses
  data_read-exits fd buffer (pos n) s refuses over = rw over (drop_connection-exits fd s refuses)

  -- With an `epoll_ctl` that fails for a descriptor that is closed: where `read` finds the end of the
  -- stream or fails, handling the event ends the process.
  pub closed_peer_exits :
      (fd : ℤ) (s : State)
      → RefusesClosed os
      → ends (os.sys s.log (read fd buffer_size)) ≡ true
      → Exited (handle_data_event os fd s)
  unfolding handle_data_event
  closed_peer_exits fd s refuses over =
      let r = os.sys s.log (read fd buffer_size) in
      data_read-exits fd (os.input s.log) r (logged (read fd buffer_size) r s) refuses over

free_request-live :
    (p : Option SendRequest) (s : State)
    → live s.log ≡ some (blocks p)
    → Returned
        (λ _ t. (live t.log ≡ some []) × (t.current_send_request ≡ s.current_send_request))
        (free_request p s)
unfolding free_request free_live
free_request-live none s h = (h, refl)
free_request-live (some r) s h = simp (h, ==ℤ_refl r.data_ptr, ==ℤ_refl r.block) (refl, refl)

-- `cleanup` returns, and frees the blocks of the pending request, and each once: where those are the
-- blocks in use, none is left. The pointer to the request keeps its value.
pub cleanup-live :
    (s : State)
    → Owned s
    → Returned
        (λ _ t. (live t.log ≡ some []) × (t.current_send_request ≡ s.current_send_request))
        (cleanup s)
unfolding cleanup
cleanup-live s h = ground (arith, free_request-live s.current_send_request s h)
