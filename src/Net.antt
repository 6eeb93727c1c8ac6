-- ===== src/Net.antt =====
-- src/net.h and src/net.c: frames over TCP. A frame is a 2-byte big-endian length and its bytes.
pub mod Stream
pub mod Recv
pub mod Sink
pub mod Send
