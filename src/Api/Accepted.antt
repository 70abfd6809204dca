-- ===== src/Api/Accepted.antt =====
-- What a client sends, against what the broker does with it: the two ends of the control queue.
pub mod Sent
pub mod Received
pub mod Connect
pub mod Settles
pub mod Generated
pub mod Disconnect
pub mod Handshake
pub mod Named
