-- ===== src/Iocp/Accept.antt =====
-- What becomes of an accepted connection.
use tag_sim.Common.{
  ℕ, suc, ◌≡◌, refl, sym, ◌∙◌, subst, true, false, [], ◌∷◌, ℤ, ◌==ℤ◌, ==ℤ_iff, arith, if◌then◌else◌,
}
use tag_sim.Iocp.State.{
  accept, wsa_recv, on_receive, on_accept, create_port, get_completion, Call, Log, Request, Os,
  State, logged,
}
use tag_sim.Iocp.Api.{perform}
use tag_sim.Iocp.Events.{handle_accept_event, handle_data_event}
use tag_sim.Iocp.Keep.{Plain, handle_accept_event-After, handle_data_event-After, run-Along}
use tag_sim.Iocp.Loop.{run}
use tag_sim.Machine.{After, Along, Along-bind, Along-map, ◌>>=◌}

-- How often a receive was posted for a socket or the receive callback was called with it.
abbrev pub read_for : ℤ → Log → ℕ
read_for fd [] = 0
read_for fd ((wsa_recv fd' p n, r) ∷ log) =
    let before = read_for fd log in if fd' ==ℤ fd then suc before else before
read_for fd ((on_receive cb fd' bytes d, r) ∷ log) =
    let before = read_for fd log in if fd' ==ℤ fd then suc before else before
read_for fd (_ ∷ log) = read_for fd log

Plain-read_for :
    (fd : ℤ) (c : Call) (r : ℤ) (log : Log) → Plain c → read_for fd ((c, r) ∷ log) ≡ read_for fd log
Plain-read_for fd (accept x) r log e = refl
Plain-read_for fd (create_port x port key) r log e = refl
Plain-read_for fd (get_completion port) r log e = refl
Plain-read_for fd (on_accept cb x client d) r log e = refl
Plain-read_for fd _ r log e = absurd e

module _ (os : Os) (s : State) (fd : ℤ) (not_client : (s.client_socket ==ℤ fd) ≡ false) where
  -- The socket of `connect` is still another one, and nothing was read for `fd`.
  abbrev Unread : State → Type 0
  Unread t = (t.client_socket ≡ s.client_socket) × (read_for fd t.log ≡ read_for fd s.log)

  perform-Unread : (q : Request) (t : State) → Unread t → After Unread (perform os q t)
  unfolding perform
  perform-Unread (Request.send x memory length) t h = ground arith
  perform-Unread _ t h = h

  receives-Unread :
      (key : ℤ) (t : State)
      → (key ==ℤ t.client_socket) ≡ true
      → Unread t
      → After Unread (handle_data_event os key t)
  receives-Unread key t at h =
      let other : (key ==ℤ fd) ≡ false =
        subst (λ k. (k ==ℤ fd) ≡ false) (sym ((==ℤ_iff key t.client_socket).0 at ∙ h.0))
          not_client in
      handle_data_event-After os Unread key t perform-Unread (λ p r room. rw other h)
        (λ cb bytes d p u some_read k. rw other k)

  handle-run-Unread :
      (listener : ℤ) (fuel : ℕ)
      → Along Unread ((handle_accept_event os listener >>= λ _. run os fuel) s)
  handle-run-Unread listener fuel =
      let plain : (c : Call) (r : ℤ) (t : State) → Plain c → Unread t → Unread (logged c r t) =
        λ c r t e h. (h.0, Plain-read_for fd c r t.log e ∙ h.1) in
      Along-bind Unread Unread (handle_accept_event os listener s) _
        (handle_accept_event-After os Unread plain perform-Unread receives-Unread listener s
          (refl, refl))
        (λ _ t k. run-Along os Unread plain perform-Unread receives-Unread fuel t k)

-- A connection is accepted whose socket is not that of `connect`. Whenever the loop has ended then or is
-- going on, whatever completions there are for that connection: no receive was posted for it since, and
-- the receive callback was not called with it.
pub accepted_unread :
    (os : Os) (listener : ℤ) (fuel : ℕ) (s : State)
    → (s.client_socket ==ℤ os.sys s.log (accept listener)) ≡ false
    → Along
        (λ t.
          read_for (os.sys s.log (accept listener)) t.log
          ≡ read_for (os.sys s.log (accept listener)) s.log)
        ((handle_accept_event os listener >>= λ _. run os fuel) s)
accepted_unread os listener fuel s not_client =
    let fd = os.sys s.log (accept listener) in
    Along-map (Unread os s fd not_client) _
      ((handle_accept_event os listener >>= λ _. run os fuel) s) (λ t k. k.1)
      (handle-run-Unread os s fd not_client listener fuel)
