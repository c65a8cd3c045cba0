-- ===== src/Kevent/Transfer/Keep.antt =====
-- Rules for what the last functions of proactor_net_kevent.c leave as it is.
use tag_sim.Common.{
  false, Bool, ℕ, ◌≡◌, true, Option, none, some, List, [], ◌∷◌, ℤ, pos, ◌==◌, ◌==ℤ◌, take, length,
  Bool-cases, inl, inr,
}
use Prim.Native.String.{String}
use tag_sim.Kevent.State.{null, evfilt_write}
use tag_sim.Kevent.Transfer.State.{
  error_if, need_block, Bytes, Change, ev_add, malloc, memcpy, read, kevent, on_receive,
  on_send_complete, Call, Request, Os, State, External, logged, fails, change_list,
}
use tag_sim.Kevent.Transfer.Handlers.{
  start_send, perform, perform_all, upcall, deliver, data_read, handle_data_event, completed,
}
use tag_sim.Kevent.Transfer.Wire.{Plain}
use tag_sim.Machine.{exited, ◌>>◌, After, After-bind, Step}

-- `handle_error` ends the process.
abbrev pub Exits : External → Type 0
Exits ext = (msg : String) (s : State) → (t : State) × (ext.handle_error msg s ≡ exited t)

module _ (os : Os) (ext : External) (exits : Exits ext) where
  -- After a test that ends the process, or reads null, where `p` is null, `p` is not null.
  pub need_block-After :
      {B : Type 0} (Q : State → Type 0) (p : ℤ) (msg : String) (k : Step State B) (s : State)
      → ((p ==ℤ null) ≡ false → After Q (k s))
      → After Q ((need_block ext p msg >> k) s)
  need_block-After Q p msg k s h = elim (Bool-cases (p ==ℤ null)) [
    | inl none_left ↦ rw (none_left, (exits msg s).1) tt
    | inr made ↦ rw made (h made)
  ]

  pub error_if-After :
      (Q : State → Type 0) (failed : Bool) (msg : String) (s : State)
      → Q s
      → After Q (error_if ext failed msg s)
  error_if-After Q true msg s h = rw (exits msg s).1 tt
  error_if-After Q false msg s h = h

  -- A list of one change.
  pub change_list-After :
      (Q : State → Type 0) (change : Change) (s : State)
      → ((r : ℤ) → Q (logged (kevent s.kq (change ∷ [])) r s))
      → After Q (change_list os ext (change ∷ []) 1 s)
  unfolding change_list
  change_list-After Q change s h =
      let r = os.sys s.log (kevent s.kq (change ∷ [])) in
      error_if-After Q (fails r) "kevent" (logged (kevent s.kq (change ∷ [])) r s) (h r)

  abbrev pub watching : ℤ → State → Call
  watching fd s = kevent s.kq (record { ident = fd; filter = evfilt_write; flag = ev_add } ∷ [])

  -- The state in which a new request is complete, and after its socket is watched.
  abbrev pub requested_state : Bytes → ℤ → ℤ → State → State
  requested_state bytes block data_ptr s = record s {
    current_send_request = some (record {
      block = block;
      data_ptr = data_ptr;
      content = bytes;
      size = length bytes;
      offset = 0;
    });
    log =
        (memcpy data_ptr bytes, pos 0)
        ∷ (malloc (length bytes), data_ptr)
        ∷ (malloc 32, block)
        ∷ s.log;
  }

  pub start_send-After :
      (Q : State → Type 0) (fd : ℤ) (bytes : Bytes) (s : State)
      → ((block data_ptr r : ℤ)
          → (block ==ℤ null) ≡ false
          → (data_ptr ==ℤ null) ≡ false
          → Q (logged (watching fd s) r (requested_state bytes block data_ptr s)))
      → After Q (start_send os ext fd bytes s)
  unfolding start_send
  start_send-After Q fd bytes s h =
      let block = os.sys s.log (malloc 32) in
      let data_ptr = os.sys ((malloc 32, block) ∷ s.log) (malloc (length bytes)) in
      let change : Change = record { ident = fd; filter = evfilt_write; flag = ev_add } in
      need_block-After Q block "malloc" _ _ (λ made.
        need_block-After Q data_ptr "malloc" _ _ (λ copied.
          let t = requested_state bytes block data_ptr s in
          After-bind Q Q (change_list os ext (change ∷ []) 1 t) _
            (change_list-After Q change t (λ r. h block data_ptr r made copied)) (λ _ u k. k)))

-- An action of which the state keeps `P`, if each request does.
module _ (os : Os) (ext : External) (P : State → Type 0)
    (plain : (c : Call) (r : ℤ) (s : State) → Plain c → P s → P (logged c r s))
    (requests : (q : Request) (s : State) → P s → After P (perform os ext q s)) where
  perform_all-After : (qs : List Request) (s : State) → P s → After P (perform_all os ext qs s)
  unfolding perform_all
  perform_all-After [] s h = h
  perform_all-After (q ∷ qs) s h =
      After-bind P P (perform os ext q s) _ (requests q s h) (λ _ t k. perform_all-After qs t k)

  upcall-After : (c : Call) (s : State) → Plain c → P s → After P (upcall os ext c s)
  unfolding upcall
  upcall-After c s e h =
      perform_all-After (os.app ((c, pos 0) ∷ s.log)) (logged c (pos 0) s) (plain c (pos 0) s e h)

  deliver-After :
      (cb : Option ℕ) (fd : ℤ) (bytes : Bytes) (user_data : ℕ) (s : State)
      → P s
      → After P (deliver os ext cb fd bytes user_data s)
  unfolding deliver
  deliver-After none fd bytes user_data s h = h
  deliver-After (some cb) fd bytes user_data s h =
      upcall-After (on_receive cb fd bytes user_data) s tt h

  pub completed-After :
      (cb : Option ℕ) (fd : ℤ) (user_data : ℕ) (s : State)
      → P s
      → After P (completed os ext cb fd user_data s)
  unfolding completed
  completed-After none fd user_data s h = h
  completed-After (some cb) fd user_data s h =
      upcall-After (on_send_complete cb fd user_data) s tt h

  pub handle_data_event-After :
      (fd : ℤ) (n : ℕ) (s : State)
      → os.sys s.log (read fd ext.buffer_size) ≡ pos n
      → (n == 0) ≡ false
      → P s
      → After P (handle_data_event os ext fd s)
  unfolding handle_data_event data_read
  handle_data_event-After fd n s e some_read h =
      rw (e, some_read)
        (deliver-After s.receive_callback fd (take n (os.input s.log)) s.receive_user_data
          (logged (read fd ext.buffer_size) (pos n) s)
          (plain (read fd ext.buffer_size) (pos n) s tt h))
