-- ===== src/Iocp.antt =====
-- The Windows back end, src/util/proactor_net_iocp.c.
pub mod State
pub mod Setup
pub mod Api
pub mod Events
pub mod Loop
pub mod Keep
pub mod Leak
pub mod Stop
pub mod Accept
pub mod Ready
pub mod Life
pub mod Functions
pub mod Lost
