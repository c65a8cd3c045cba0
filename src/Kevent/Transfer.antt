-- ===== src/Kevent/Transfer.antt =====
-- The last functions of src/util/proactor_net_kevent.c, lines 719 to 880: they are written for single
-- descriptors and use static variables, a type and a function that the file does not declare.
pub mod State
pub mod Handlers
pub mod Wire
pub mod Keep
pub mod Submit
pub mod Sound
pub mod Closed
