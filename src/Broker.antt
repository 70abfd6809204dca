-- ===== src/Broker.antt =====
-- src/broker.c
pub mod Memory
pub mod State
pub mod Reply
pub mod Requests
pub mod Publish
pub mod Ioctl
pub mod Loop
pub mod Session
pub mod Valid
pub mod Slots
pub mod Safety
pub mod Effects
pub mod Spec
