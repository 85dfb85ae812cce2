-- ===== src/Tests.antt =====
-- The theorems at concrete inputs.
mod Routing
mod Queues
mod Hosts
mod Channels
mod Wire
mod Logs
mod Connections
mod Statistics
mod Servers
