-- ===== src/Tests.antt =====
-- Runs of the model at concrete inputs, and the theorems at inputs that meet their conditions.
mod Buf
mod Status
mod Epoll
mod Connection
mod Kevent
mod Transfer
mod Clock
mod Log
mod Platform
mod Restart
mod Iocp
mod Shims
mod Helpers
