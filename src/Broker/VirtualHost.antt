-- ===== src/Broker/VirtualHost.antt =====
-- broker/vhost.h: the virtual host. The calls of a queue's dead-letter handler are returned, and
-- made by `on_dead_letter`.
pub mod Names
pub mod State
pub mod Exchanges
pub mod Queues
pub mod Delivery
pub mod Cleanup
pub mod Recovery
pub mod Routed
pub mod Unbinding
pub mod Removal
pub mod Requests
pub mod Kinds
pub mod Kept
pub mod Reachable
pub mod Declared
pub mod Snapshots
