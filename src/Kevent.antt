-- ===== src/Kevent.antt =====
-- The BSD and macOS back end, src/util/proactor_net_kevent.c.
pub mod State
pub mod Lifecycle
pub mod Ready
pub mod Loop
pub mod Sockets
pub mod Chain
pub mod Dispose
pub mod Keep
pub mod Capacity
pub mod Stop
pub mod Busy
pub mod Listed
pub mod Life
pub mod Receive
pub mod TickList
pub mod Accept
pub mod Create
pub mod Ticks
pub mod TickStart
pub mod Transfer
