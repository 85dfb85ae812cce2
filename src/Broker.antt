-- ===== src/Broker.antt =====
-- broker/: exchanges, queues, the virtual host, channels, connections, the server and the user store.
pub mod Exchange
pub mod Message
pub mod Consumer
pub mod Queue
pub mod VirtualHost
pub mod Channel
pub mod Connection
pub mod Auth
pub mod Server
pub mod Stats
