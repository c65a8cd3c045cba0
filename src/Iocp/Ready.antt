-- ===== src/Iocp/Ready.antt =====
-- Which completion port a socket is associated with, and what setting up and ending do to that.
use tag_sim.Common.{
  ℕ, ◌≡◌, refl, Option, none, some, [], ◌∷◌, false, ℤ, pos, ◌==ℤ◌, ==ℤ_refl, if◌then◌else◌,
}
use tag_sim.Iocp.State.{Log, Call, create_port, closesocket, wsa_startup, Os, State}
use tag_sim.Iocp.Setup.{init, start_server, is_null, is_invalid}
use tag_sim.Machine.{Returned, ◌>>=◌}

-- The port and the key of a socket. A call that fails changes nothing; a socket that is closed has
-- neither.
abbrev pub association : Log → ℤ → Option (ℤ × ℤ)
association [] fd = none
association ((create_port fd' port key, r) ∷ log) fd =
    let before = association log fd in
    if fd' ==ℤ fd then (if is_null r then before else some (port, key)) else before
association ((closesocket fd', r) ∷ log) fd =
    let before = association log fd in if fd' ==ℤ fd then none else before
association (_ ∷ log) fd = association log fd

-- `WSAStartup` returns 0, no other call returns null, `INVALID_SOCKET` or `SOCKET_ERROR`.
pub record Succeeds (os : Os) : Type 0 where
  pub startup : (log : Log) → os.sys log wsa_startup ≡ pos 0
  pub not_null : (log : Log) (h p k : ℤ) → is_null (os.sys log (create_port h p k)) ≡ false
  pub not_invalid : (log : Log) (c : Call) → is_invalid (os.sys log c) ≡ false

-- Where no call fails, `init` and then `start_server` return 0, there is a completion port, and the
-- listening socket is associated with it under its own descriptor as the key.
pub start_server-association :
    (os : Os) (port : ℕ) (s : State)
    → Succeeds os
    → Returned
        (λ r t.
          (r ≡ pos 0)
          × (is_null t.iocp ≡ false)
          × (association t.log t.server_socket ≡ some (t.iocp, t.server_socket)))
        ((init os >>= λ _. start_server os port) s)
unfolding init start_server
start_server-association os port s good =
    simp (good.startup, good.not_null, good.not_invalid, ==ℤ_refl) (refl, refl, refl)
