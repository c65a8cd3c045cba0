-- ===== src/Epoll/Misdirected.antt =====
-- To which socket the bytes of a request go: that of the writable event, whichever that is.
use tag_sim.Common.{
  ℕ, ◌<◌, ◌≡◌, refl, false, none, [], ◌∷◌, ◌++◌, take, length, drop, take-all, ◌-◌, ℤ, pos, ◌==ℤ◌,
  ==ℤ_refl, if◌then◌else◌, arith, leb, ◌+◌,
}
use tag_sim.Epoll.State.{Log, Bytes, write, Event, Os, State}
use tag_sim.Epoll.Api.{send}
use tag_sim.Epoll.Events.{dispatch, handle_write_event}
use tag_sim.Epoll.Wire.{some_of}
use tag_sim.Epoll.Finish.{IsWritable}
use tag_sim.Epoll.Lifecycle.{Succeeds, Allocates}
use tag_sim.Machine.{Returned, ◌>>=◌}

-- The bytes that `write` took for one descriptor, in order.
abbrev pub sent : ℤ → Log → Bytes
sent fd [] = []
sent fd ((write fd' bytes, r) ∷ log) =
    let before = sent fd log in if fd' ==ℤ fd then before ++ some_of r bytes else before
sent fd (_ ∷ log) = sent fd log

-- Where no request is pending, no call fails and memory is there: bytes that are sent to a socket go to
-- the connection of the next writable event, whichever the socket of the send was. Of the bytes `write`
-- takes the first `n`, fewer than all, and no other descriptor gets any.
pub misdirected :
    (os : Os) (fd : ℤ) (bytes : Bytes) (e : Event) (n : ℕ) (s : State)
    → s.current_send_request ≡ none
    → Succeeds os
    → Allocates os
    → IsWritable s e
    → ((log : Log) → os.sys log (write e.fd bytes) ≡ pos n)
    → n < length bytes
    → Returned
        (λ _ t.
          (sent e.fd t.log ≡ sent e.fd s.log ++ take n bytes)
          × ((other : ℤ) → (e.fd ==ℤ other) ≡ false → sent other t.log ≡ sent other s.log))
        ((send os fd bytes >>= λ _. dispatch os e) s)
unfolding send dispatch handle_write_event
misdirected os fd bytes e n s idle good room writable takes part =
    let whole : take (length bytes - 0) (drop 0 bytes) ≡ bytes =
      take-all (length bytes - 0) bytes (omega arith) in
    let unfinished : leb (length bytes) (0 + n) ≡ false = ground arith in
    rw (idle, send)
      (simp
        (
          good, room, writable.not_pipe, writable.not_server, writable.not_in, writable.out, whole,
          takes, unfinished, ==ℤ_refl,
        )
        (refl, λ other apart. rw apart refl))
