-- ===== src/Restart.antt =====
-- Starting the event loop of src/util/proactor_net_epoll.c or src/util/proactor_net_iocp.c again.
use tag_sim.Epoll.State as Epoll
use tag_sim.Epoll.Api.{stop as epoll_stop, perform as epoll_perform}
use tag_sim.Epoll.Functions as Linux
use tag_sim.Iocp.State as Iocp
use tag_sim.Iocp.Api.{stop as iocp_stop, perform as iocp_perform}
use tag_sim.Iocp.Functions as Windows
