-- ===== src/Broker/Connection.antt =====
-- broker/connection.h and broker/connection.cpp: a client's connection.
pub mod State
pub mod Channels
pub mod Handshake
pub mod Methods
pub mod Reading
pub mod Heartbeat
pub mod Writing
pub mod Invariant
pub mod Steps
pub mod Events
pub mod EventsKept
pub mod Kept
pub mod Reachable
pub mod Unauthenticated
