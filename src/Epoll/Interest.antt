-- ===== src/Epoll/Interest.antt =====
-- The interest list of an epoll instance, as the calls and their results leave it.
use tag_sim.Epoll.State.{Log, epoll_ctl, close, add, modify, delete, Op, fails}
use tag_sim.Common.{ℕ, Option, none, some, [], ◌∷◌, ℤ, ◌==ℤ◌, if◌then◌else◌}

abbrev pub entry : Op → ℕ → Option ℕ
entry add mask = some mask
entry modify mask = some mask
entry delete mask = none

-- The events that a descriptor is registered for in `queue`. A call that fails changes nothing, and a
-- descriptor that is closed is no longer registered.
abbrev pub interest : ℤ → Log → ℤ → Option ℕ
interest queue [] fd = none
interest queue ((epoll_ctl queue' op fd' mask, r) ∷ log) fd =
    let before = interest queue log fd in
    if queue' ==ℤ queue
    then (if fd' ==ℤ fd then (if fails r then before else entry op mask) else before)
    else before
interest queue ((close fd', r) ∷ log) fd =
    let before = interest queue log fd in if fd' ==ℤ fd then none else before
interest queue (_ ∷ log) fd = interest queue log fd
