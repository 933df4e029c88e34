-- ===== src/Tests.antt =====
-- The theorems at concrete inputs, and runs of the definitions that can be followed in the source.
mod Lists
mod Memory
mod Samples
mod Messages
mod Sockets
mod Broker
mod Threads
mod Protocol
mod Stream
mod Rounds
mod Lifetime
mod Media
