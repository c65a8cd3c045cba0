-- ===== src/Epoll/Reply.antt =====
-- A message that is sent to a connection, and only to it, is written to it in full.
use tag_sim.Common.{
  ℕ, suc, ◌==◌, ◌≡◌, refl, sym, ◌∙◌, ap, true, false, none, some, [], ◌∷◌, ◌++◌, arith, ℤ, pos,
  ◌==ℤ◌, length, append-nil,
}
use tag_sim.Epoll.State.{
  buffer_size, on_receive, read, Request, Log, Bytes, Event, Os, State, epollin,
}
use tag_sim.Epoll.Events.{choose, dispatch, upcall, has, handle_data_event, data_read, deliver}
use tag_sim.Epoll.Api.{perform_all, perform, send}
use tag_sim.Epoll.Lifecycle.{Succeeds, Allocates}
use tag_sim.Epoll.Loop.{dispatch_all}
use tag_sim.Epoll.Wire.{remaining}
use tag_sim.Epoll.Finish.{Progresses, repeat, IsWritable, none_left}
use tag_sim.Epoll.Misdirected.{sent}
use tag_sim.Machine.{Returned, Returned-bind, Returned-map}
use tag_sim.Epoll.Sending.{CompletesQuietly, Sending, dispatch_all-Sending}

-- The receive callback sends `reply` to the connection that it was called for.
abbrev pub SendsBack : Os → ℕ → ℤ → Bytes → Type 0
SendsBack os cb fd reply =
    (log : Log) (bytes : Bytes) (d : ℕ)
    → os.app ((on_receive cb fd bytes d, pos 0) ∷ log) ≡ Request.send fd reply ∷ []

-- The readable event leaves the reply as the pending request.
dispatch-Sending_reply :
    (os : Os) (d e : Event) (cb n : ℕ) (reply : Bytes) (s : State)
    → Succeeds os
    → Allocates os
    → s.receive_callback ≡ some cb
    → s.current_send_request ≡ none
    → d.fd ≡ e.fd
    → has d.events epollin ≡ true
    → IsWritable s e
    → os.sys s.log (read e.fd buffer_size) ≡ pos (suc n)
    → SendsBack os cb e.fd reply
    → Returned
        (λ _ t. Sending e.fd (sent e.fd s.log ++ reply) s (suc (length reply)) t)
        (dispatch os d s)
unfolding dispatch choose handle_data_event data_read deliver upcall perform_all perform send
dispatch-Sending_reply os d e cb n reply s good room listens free same readable writable got sends =
    let some_read : (suc n == 0) ≡ false = ground arith in
    simp
      (
        same, writable.not_pipe, writable.not_server, readable, got, some_read, listens, sends,
        free, good, room,
      )
      (record {
        pipe = refl;
        server = refl;
        fits = (refl, omega arith);
        few = omega arith;
        order = refl;
        apart = λ other ne. refl;
      })

-- A readable and then enough writable events of one connection. No call fails, memory is there, each
-- `write` takes something, if there is something left, no request is pending, and a receive callback is
-- set: `read` gives bytes, the callback sends a reply to that connection, and the callback of the
-- completed send asks for nothing. Then the events are handled, `write` takes the whole reply for that
-- connection, no other descriptor gets anything, and no request is pending any more.
pub answered :
    (os : Os) (d e : Event) (cb n : ℕ) (reply : Bytes) (s : State)
    → Succeeds os
    → Allocates os
    → Progresses os
    → CompletesQuietly os
    → s.receive_callback ≡ some cb
    → s.current_send_request ≡ none
    → d.fd ≡ e.fd
    → has d.events epollin ≡ true
    → IsWritable s e
    → os.sys s.log (read e.fd buffer_size) ≡ pos (suc n)
    → SendsBack os cb e.fd reply
    → Returned
        (λ _ t.
          (sent e.fd t.log ≡ sent e.fd s.log ++ reply)
          × ((other : ℤ) → (e.fd ==ℤ other) ≡ false → sent other t.log ≡ sent other s.log)
          × (t.current_send_request ≡ none))
        (dispatch_all os (d ∷ repeat (suc (length reply)) e) s)
unfolding dispatch_all
answered os d e cb n reply s good room progress quiet listens free same readable writable got
      sends =
    let whole = sent e.fd s.log ++ reply in
    let count = suc (length reply) in
    Returned-bind (λ _ t. Sending e.fd whole s count t) _ (dispatch os d s) _
      (dispatch-Sending_reply os d e cb n reply s good room listens free same readable writable got
        sends)
      (λ _ t h.
        Returned-map (λ _ u. Sending e.fd whole s 0 u) _ (dispatch_all os (repeat count e) t)
          (λ _ u k.
            let idle = none_left u.current_send_request k.few in
            (
              sym (append-nil (sent e.fd u.log))
                  ∙ ap (λ l. sent e.fd u.log ++ l) (sym (ap remaining idle))
                  ∙ k.order,
              k.apart,
              idle,
            ))
          (dispatch_all-Sending os e.fd whole s quiet progress count e t writable refl h))
