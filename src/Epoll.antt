-- ===== src/Epoll.antt =====
-- The Linux back end, src/util/proactor_net_epoll.c.
pub mod State
pub mod Heap
pub mod Setup
pub mod Api
pub mod Events
pub mod Loop
pub mod Keep
pub mod Same
pub mod Memory
pub mod Wire
pub mod Simulate
pub mod Refine
pub mod Finish
pub mod Stream
pub mod Stop
pub mod Interest
pub mod Lifecycle
pub mod Descriptors
pub mod Life
pub mod Misdirected
pub mod Greeting
pub mod Idle
pub mod Sending
pub mod Reply
pub mod Traced
pub mod Trace
pub mod Heard
pub mod Functions
