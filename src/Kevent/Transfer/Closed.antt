-- ===== src/Kevent/Transfer/Closed.antt =====
-- What the end of a connection does to `handle_data_event` of proactor_net_kevent.c.
use tag_sim.Common.{
  arith, ◌≡◌, refl, ◌↔◌, Option, none, some, ℤ, pos, negsuc, ◌==◌, Bool-cases, inl, inr,
}
use tag_sim.Kevent.Transfer.State.{read, Bytes, Request, Os, State, External, logged, change_list}
use tag_sim.Kevent.Transfer.Handlers.{perform, send_when, data_read, handle_data_event, hang_up}
use tag_sim.Kevent.Transfer.Keep.{Exits, handle_data_event-After, start_send-After}
use tag_sim.Machine.{After, After-bind, Faulted, After-not-Faulted}

-- `read` fails, or finds the end of the connection.
abbrev pub Ended : ℤ → Type 0
Ended (negsuc n) = Unit {0}
Ended (pos n) = n ≡ 0

module _ (os : Os) (ext : External) (exits : Exits ext) where
  abbrev Any : State → Type 0
  Any s = Unit {0}

  send_when-Any :
      (p : Option _) (fd : ℤ) (bytes : Bytes) (s : State)
      → After Any (send_when os ext p fd bytes s)
  unfolding send_when
  send_when-Any (some r) fd bytes s = tt
  send_when-Any none fd bytes s =
      start_send-After os ext exits Any fd bytes s (λ block data_ptr r made copied. tt)

  perform-Any : (q : Request) (s : State) → After Any (perform os ext q s)
  unfolding perform
  perform-Any (Request.send fd bytes) s =
      After-bind Any Any (send_when os ext s.current_send_request fd bytes s) _
        (send_when-Any s.current_send_request fd bytes s) (λ _ t k. tt)
  perform-Any (Request.set_receive_callback cb d) s = tt
  perform-Any (Request.set_send_complete_callback cb d) s = tt
  perform-Any (Request.set_accept_callback cb d) s = tt

  Ended-Faulted :
      (fd : ℤ) (buffer : Bytes) (r : ℤ) (s : State)
      → Ended r
      → Faulted (data_read os ext fd buffer r s)
  unfolding data_read hang_up change_list
  Ended-Faulted fd buffer (negsuc n) s e = tt
  Ended-Faulted fd buffer (pos n) s e = rw e tt

  heard-After :
      (fd : ℤ) (r : ℤ) (s : State)
      → os.sys s.log (read fd ext.buffer_size) ≡ r
      → Faulted (handle_data_event os ext fd s)
      → Ended r
  heard-After fd (negsuc n) s e f = tt
  heard-After fd (pos n) s e f = elim (Bool-cases (n == 0)) [
    | inl over ↦ ground (arith, over)
    | inr some_read ↦ absurd (
        After-not-Faulted Any (handle_data_event os ext fd s)
          (handle_data_event-After os ext Any (λ _ _ _ _ _. tt) (λ q t _. perform-Any q t) fd n s e
            some_read tt)
          f)
  ]

-- Where `handle_error` ends the process, the handler of a readable event reads a second `struct kevent`
-- behind the one that it has exactly when `read` fails or finds that the connection is closed.
pub data_event-Faulted :
    (os : Os) (ext : External)
    → Exits ext
    → (fd : ℤ) (s : State)
    → Faulted (handle_data_event os ext fd s) ↔ Ended (os.sys s.log (read fd ext.buffer_size))
unfolding handle_data_event
data_event-Faulted os ext exits fd s =
    let r = os.sys s.log (read fd ext.buffer_size) in
    (
      heard-After os ext exits fd r s refl,
      Ended-Faulted os ext exits fd (os.input s.log) r (logged (read fd ext.buffer_size) r s),
    )
