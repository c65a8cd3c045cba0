-- ===== src/Kevent/Keep/Known.antt =====
-- How something known of the sockets is shown to survive the event loop, however it ends.
use tag_sim.Common.{ℕ, suc, ◌≡◌, Option, some, List, ℤ, pos}
use tag_sim.Machine.{Every}
use tag_sim.Kevent.State.{
  Buffer, Socket, Os, State, Log, Call, recvfrom, update, calloc, wait, close, free,
}
use tag_sim.Kevent.Ready.{accepted_socket}
use tag_sim.Kevent.Loop.{run}
use tag_sim.Kevent.Dispose.{last_closed}
use tag_sim.Kevent.Sockets.{closes, frees, logged}
use tag_sim.Kevent.Keep.{filled, Handled, Stable}
use tag_sim.Kevent.Keep.Loop.{run-Keeps}

-- What is known of the sockets in memory, of the head of the proactor's list, of the descriptors
-- of its own, and of those closed and the blocks freed so far.
abbrev pub Known : Type 1
Known = (ℤ → Option Socket) → ℤ → List ℤ → List ℤ → List ℤ → Type 0

-- It survives the three places where the event loop writes to a socket: a new one is stored, the
-- address of the peer is, and so is the length of what was received.
pub record Keeps (os : Os) (P : Known) : Type 0 where
  pub accepts :
      {heap : ℤ → Option Socket} {sockets : ℤ} {ends closed freed : List ℤ} (log : Log) (fd : ℤ)
      (addr : ℕ)
      → P heap sockets ends closed freed
      → P
          (update heap (os.sys log calloc) (some (accepted_socket fd addr)))
          sockets
          ends
          closed
          freed
  pub reads_end :
      {heap : ℤ → Option Socket} {sockets : ℤ} {ends closed freed : List ℤ} {p : ℤ} {c : Socket}
      (addr : ℕ)
      → heap p ≡ some c
      → P heap sockets ends closed freed
      → P (update heap p (some (record c { remote_addr = addr }))) sockets ends closed freed
  pub reads_some :
      {heap : ℤ → Option Socket} {sockets : ℤ} {ends closed freed : List ℤ} {p : ℤ} {c : Socket}
      {buffer : Buffer} (log : Log) (addr n : ℕ)
      → heap p ≡ some c
      → c.buffer ≡ some buffer
      → os.sys log (recvfrom c.sock buffer.buffer_data buffer.data_length) ≡ pos (suc n)
      → P heap sockets ends closed freed
      → P (update heap p (some (filled c buffer addr n))) sockets ends closed freed

module _ (os : Os) (P : Known) (keeps : Keeps os P) where
  abbrev pub Good : State → Type 0
  Good s = P s.heap s.proactor.sockets (last_closed s.proactor) (closes s.log) (frees s.log)

  Handled-Good : (c : Call) (r : ℤ) (s : State) → Handled c → Good s → Good (logged c r s)
  Handled-Good (close fd) r s e h = absurd e
  Handled-Good (free p) r s e h = absurd e
  Handled-Good (wait kq n sec nsec) r s e h = absurd e
  Handled-Good _ r s e h = h

  Good-Stable : Stable os Good
  Good-Stable = record {
    calls = Handled-Good;
    stops = λ s h. h;
    accepts = λ log fd addr s h. keeps.accepts log fd addr h;
    reads_end = λ p c addr s at h. keeps.reads_end addr at h;
    reads_some =
        λ p c buffer log addr n s at has_buffer r h. keeps.reads_some log addr n at has_buffer r h;
  }

  -- What is known before the loop is known after it.
  pub run-Good :
      (fuel : ℕ) (proactor : ℤ) (s : State) → Good s → Every Good (run os fuel proactor s)
  run-Good fuel proactor s h =
      run-Keeps os Good Good-Stable proactor (λ kq n sec nsec r s h. h) fuel s h
