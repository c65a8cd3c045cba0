-- ===== src/Iocp/Keep.antt =====
-- How an invariant is shown to be kept by the event loop: it is enough that it survives the calls
-- that are only logged, each request of the application, and the posting of a receive.
use tag_sim.Common.{
  ◌==ℤ◌, true, ltb, take, ℕ, zero, suc, ◌≡◌, Option, none, some, List, [], ◌∷◌, ℤ, pos, Bool, false,
  Bool-cases, inl, inr,
}
use tag_sim.Iocp.State.{
  malloc, wsa_recv, io_operation_size, buffer_size, on_receive, Log, Call, on_accept, accept,
  create_port, get_completion, Request, Os, State, M, logged, need,
}
use tag_sim.Iocp.Setup.{is_null, is_invalid}
use tag_sim.Iocp.Api.{fails, perform, perform_all}
use tag_sim.Iocp.Events.{
  deliver, upcall, accepted, handle_accept_event, handle_data_event, choose, dispatch,
}
use tag_sim.Iocp.Loop.{serve, round, run, run_stopped, run_goes_on}
use tag_sim.Machine.{Along-then, After-Along, After, After-bind, Along, Along-bind, ◌>>=◌}
use Prim.Native.String.{String}

-- The calls of the loop that concern no operation.
abbrev pub Plain : Call → Type 0
Plain (accept fd) = Unit {0}
Plain (create_port h port key) = Unit {0}
Plain (get_completion port) = Unit {0}
Plain (on_accept cb fd client d) = Unit {0}
Plain _ = ⊥

-- During a callback, or while the loop waits.
module _ (os : Os) (P : State → Type 0)
    (requests : (q : Request) (s : State) → P s → After P (perform os q s)) where
  pub perform_all-After : (qs : List Request) (s : State) → P s → After P (perform_all os qs s)
  unfolding perform_all
  perform_all-After [] s h = h
  perform_all-After (q ∷ qs) s h =
      After-bind P P (perform os q s) _ (requests q s h) (λ _ t k. perform_all-After qs t k)

  pub upcall-After : (c : Call) (s : State) → P (logged c (pos 0) s) → After P (upcall os c s)
  unfolding upcall
  upcall-After c s h = perform_all-After (os.app ((c, pos 0) ∷ s.log)) (logged c (pos 0) s) h

-- A call that ends the process where it fails.
pub need-After :
    (os : Os) (P : State → Type 0) {A : Type 0} (bad : ℤ → Bool) (c : Call) (msg : String)
    (k : ℤ → M A) (s : State)
    → ((r : ℤ) → bad r ≡ false → After P (k r (logged c r s)))
    → After P ((need os bad c msg >>= k) s)
need-After os P bad c msg k s h = elim (Bool-cases (bad (os.sys s.log c))) [
  | inl failed ↦ rw failed tt
  | inr passed ↦ rw passed (h (os.sys s.log c) passed)
]

deliver-After :
    (os : Os) (P : State → Type 0) (cb : Option ℕ) (fd : ℤ) (bytes : List ℕ) (d : ℕ) (s : State)
    → ((q : Request) (s : State) → P s → After P (perform os q s))
    → P s
    → ((cb : ℕ) (t : State) → P t → P (logged (on_receive cb fd bytes d) (pos 0) t))
    → After P (deliver os cb fd bytes d s)
unfolding deliver
deliver-After os P none fd bytes d s requests h hears = h
deliver-After os P (some cb) fd bytes d s requests h hears =
    upcall-After os P requests (on_receive cb fd bytes d) s (hears cb s h)

-- The handler of data: the receive is posted, and a callback that is made survives.
pub handle_data_event-After :
    (os : Os) (P : State → Type 0) (fd : ℤ) (s : State)
    → ((q : Request) (s : State) → P s → After P (perform os q s))
    → ((p r : ℤ)
        → is_null p ≡ false
        → P (logged (wsa_recv fd p buffer_size) r (logged (malloc io_operation_size) p s)))
    → ((cb : ℕ) (bytes : List ℕ) (d : ℕ) (p : ℤ) (t : State)
        → ltb 0 (os.bytes_received ((malloc io_operation_size, p) ∷ s.log)) ≡ true
        → P t
        → P (logged (on_receive cb fd bytes d) (pos 0) t))
    → After P (handle_data_event os fd s)
unfolding handle_data_event
handle_data_event-After os P fd s requests posts hears =
    let p = os.sys s.log (malloc io_operation_size) in
    let t = logged (malloc io_operation_size) p s in
    let c = wsa_recv fd p buffer_size in
    let r = os.sys t.log c in
    let n = os.bytes_received t.log in
    let bytes = take n (os.input t.log) in
    elim (Bool-cases (is_null p)) [
      | inl full ↦ rw full tt
      | inr room ↦ rw room (elim (Bool-cases (fails r (os.last_error t.log))) [
        | inl failed ↦ rw failed tt
        | inr passed ↦ rw passed (elim (Bool-cases (ltb 0 n)) [
          | inl some_read ↦ rw some_read (
              deliver-After os P s.receive_callback fd bytes s.receive_user_data (logged c r t)
                requests (posts p r room)
                (λ cb u k. hears cb bytes s.receive_user_data p u some_read k))
          | inr none_read ↦ rw none_read (posts p r room)
        ])
      ])
    ]

module _ (os : Os) (P : State → Type 0)
    (plain : (c : Call) (r : ℤ) (s : State) → Plain c → P s → P (logged c r s))
    (requests : (q : Request) (s : State) → P s → After P (perform os q s))
    (receives : (fd : ℤ) (s : State)
      → (fd ==ℤ s.client_socket) ≡ true
      → P s
      → After P (handle_data_event os fd s)) where
  accepted-After :
      (cb : Option ℕ) (fd client : ℤ) (user_data : ℕ) (s : State)
      → P s
      → After P (accepted os cb fd client user_data s)
  unfolding accepted
  accepted-After none fd client user_data s h = h
  accepted-After (some cb) fd client user_data s h =
      let c = on_accept cb fd client user_data in
      upcall-After os P requests c s (plain c (pos 0) s tt h)

  pub handle_accept_event-After : (fd : ℤ) (s : State) → P s → After P (handle_accept_event os fd s)
  unfolding handle_accept_event
  handle_accept_event-After fd s h =
      need-After os P is_invalid (accept fd) "accept" _ s (λ client _.
        let t = logged (accept fd) client s in
        let c = create_port client s.iocp client in
        need-After os P is_null c "CreateIoCompletionPort" _ t (λ r _.
          accepted-After s.accept_callback fd client s.accept_user_data (logged c r t)
            (plain c r t tt (plain (accept fd) client s tt h))))

  dispatch-After : (key : ℤ) (s : State) → P s → After P (dispatch os key s)
  unfolding dispatch choose
  dispatch-After key s h = elim (Bool-cases (key ==ℤ s.server_socket)) [
    | inl listening ↦ rw listening (handle_accept_event-After s.server_socket s h)
    | inr other ↦ rw other (elim (Bool-cases (key ==ℤ s.client_socket)) [
      | inl connected ↦ rw connected (receives key s connected h)
      | inr unknown ↦ rw unknown h
    ])
  ]

  pub serve-After :
      (result : ℤ) (before : Log) (s : State) → P s → After P (serve os result before s)
  unfolding serve
  serve-After result before s h = elim (Bool-cases (is_null result)) [
    | inl failed ↦ rw failed tt
    | inr passed ↦ rw passed (dispatch-After (os.key before) s h)
  ]

  round-Along : (s : State) → P s → Along P (round os s)
  unfolding round
  round-Along s h =
      let c = get_completion s.iocp in
      let r = os.sys s.log c in
      let t = logged c r s in
      Along-bind P P (perform_all os (os.app t.log) t) _
        (perform_all-After os P requests (os.app t.log) t (plain c r s tt h))
        (λ _ u k. elim (Bool-cases (os.returns s.log)) [
          | inl over ↦ rw over (After-Along P (serve os r s.log u) (serve-After r s.log u k))
          | inr waiting ↦ rw waiting k
        ])

  -- The rule: the invariant holds whenever the loop has ended or is going on.
  pub run-Along : (fuel : ℕ) (s : State) → P s → Along P (run os fuel s)
  unfolding run
  run-Along zero s h = h
  run-Along (suc fuel) s h = elim (Bool-cases s.stop) [
    | inl stopped ↦ rw (run_stopped os fuel s stopped) h
    | inr runs ↦
        rw (run_goes_on os fuel s runs)
          (Along-then P (round os s) _ (round-Along s h) (λ _ t k. run-Along fuel t k))
  ]
