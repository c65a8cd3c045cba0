-- ===== src/Kevent/Capacity.antt =====
-- What becomes of the receive buffers in the event loop. `data_length` of a buffer is both its capacity
-- and what was received into it.
use tag_sim.Common.{
  ℕ, ◌≤◌, Bool-cases, inl, inr, Option, none, some, ℤ, ◌==ℤ◌, ==ℤ_iff, pos_part, arith,
}
use tag_sim.Machine.{Every}
use tag_sim.Kevent.State.{Buffer, Socket, Os, State, Log, recvfrom, calloc, update}
use tag_sim.Kevent.Ready.{accepted_socket}
use tag_sim.Kevent.Loop.{run}
use tag_sim.Kevent.Keep.{filled}
use tag_sim.Kevent.Keep.Known.{Known, Keeps, run-Good}

abbrev pub capacity_of : Option Buffer → ℕ
capacity_of none = 0
capacity_of (some buffer) = buffer.data_length

abbrev pub capacity : Option Socket → ℕ
capacity none = 0
capacity (some socket) = capacity_of socket.buffer

-- `recvfrom` never says that it stored more bytes than it was offered room for.
abbrev pub IsBounded : Os → Type 0
IsBounded os = (log : Log) (fd p : ℤ) (n : ℕ) → pos_part (os.sys log (recvfrom fd p n)) ≤ n

-- No buffer is larger than `bound` says.
abbrev Within : (ℤ → ℕ) → Known
Within bound heap sockets ends closed freed = (q : ℤ) → capacity (heap q) ≤ bound q

update-Within :
    (heap : ℤ → Option Socket) (bound : ℤ → ℕ) (p : ℤ) (cell : Option Socket)
    → ((q : ℤ) → capacity (heap q) ≤ bound q)
    → capacity cell ≤ bound p
    → (q : ℤ) → capacity (update heap p cell q) ≤ bound q
update-Within heap bound p cell h small q = elim (Bool-cases (q ==ℤ p)) [
  | inl same ↦ rw (same, (==ℤ_iff q p).0 same) small
  | inr other ↦ rw other (h q)
]

module _ (os : Os) (bounded : IsBounded os) (bound : ℤ → ℕ) where
  Within-Keeps : Keeps os (Within bound)
  Within-Keeps = record {
    accepts = λ {heap} {sockets} {ends} {closed} {freed} log fd addr h.
        update-Within heap bound (os.sys log calloc) (some (accepted_socket fd addr)) h
          (omega arith);
    reads_end = λ {heap} {sockets} {ends} {closed} {freed} {p} {c} addr at h.
        update-Within heap bound p (some (record c { remote_addr = addr })) h (ground (arith, h p));
    reads_some =
        λ {heap} {sockets} {ends} {closed} {freed} {p} {c} {buffer} log addr n at has_buffer r h.
          update-Within heap bound p (some (filled c buffer addr n)) h
            (ground (arith, h p, bounded log c.sock buffer.buffer_data buffer.data_length));
  }

-- If the callbacks leave the buffers that they are given alone, as they do here, and `recvfrom` never
-- reports more than the room it was offered, then however `proactor_net_run` ends,
-- and whatever the system and the callbacks do, the capacity of every socket's receive buffer is at
-- most what it was before: what one datagram makes smaller stays smaller.
pub run-capacity :
    (os : Os) (fuel : ℕ) (proactor : ℤ) (s : State)
    → IsBounded os
    → Every (λ t. (q : ℤ) → capacity (t.heap q) ≤ capacity (s.heap q)) (run os fuel proactor s)
run-capacity os fuel proactor s bounded =
    let bound : ℤ → ℕ = λ q. capacity (s.heap q) in
    run-Good os (Within bound) (Within-Keeps os bounded bound) fuel proactor s (λ q. ground arith)
