-- ===== src/Epoll/Descriptors.antt =====
-- The descriptors that the program was given and those that it has closed.
use tag_sim.Common.{List, [], ◌∷◌, ◌++◌, ℤ}
use tag_sim.Epoll.State.{Log, Os, State, epoll_create, pipe, socket, close}

-- The descriptors that were closed, in their order.
abbrev pub closed : Log → List ℤ
closed [] = []
closed ((close fd, r) ∷ log) = closed log ++ fd ∷ []
closed (_ ∷ log) = closed log

-- The descriptors that `epoll_create1` and `socket` returned and `pipe` stored, in their order.
abbrev pub opened : Os → Log → List ℤ
opened os [] = []
opened os ((epoll_create, fd) ∷ log) = opened os log ++ fd ∷ []
opened os ((socket, fd) ∷ log) = opened os log ++ fd ∷ []
opened os ((pipe, r) ∷ log) = opened os log ++ (os.pipe_fds log).0 ∷ (os.pipe_fds log).1 ∷ []
opened os (_ ∷ log) = opened os log

-- The four descriptors of a server without a connection of its own, in the order in which they are
-- opened, and in that in which they are closed.
abbrev pub made : State → List ℤ
made s = s.epoll_fd ∷ s.wakeup_read ∷ s.wakeup_write ∷ s.server_socket ∷ []

abbrev pub descriptors : State → List ℤ
descriptors s = s.server_socket ∷ s.wakeup_read ∷ s.wakeup_write ∷ s.epoll_fd ∷ []
