-- ===== src/Api.antt =====
-- lib/psmq.c: the library that clients use.
pub mod State
pub mod Send
pub mod Receive
pub mod Init
pub mod Accepted
