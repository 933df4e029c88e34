-- ===== src/MfBroker.antt =====
-- mfbroker/mfbroker.c with include/mfbroker.h: connections over which messages are exchanged.
pub mod Wire
pub mod Slots
pub mod Connections
pub mod Server
pub mod Worker
pub mod Lifetime
pub mod SetUp
