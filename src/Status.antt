-- ===== src/Status.antt =====
-- src/util/status.h and src/util/status.c: the status codes, their classes and their texts.
pub mod Codes
pub mod Text
