-- ===== src/Session.antt =====
-- src/session.h and src/session.c: the v2 wire format, the replay window and the sessions.
pub mod Wire
pub mod Replay
pub mod Transport
