-- ===== src/Broker/Channel.antt =====
-- broker/channel.h and broker/channel.cpp: the channel.
pub mod State
pub mod Frames
pub mod Publishing
pub mod Declaring
pub mod Consuming
pub mod Settling
pub mod Methods
pub mod Assembly
pub mod Durability
pub mod Tags
pub mod Steps
pub mod StepsContent
pub mod Chunks
pub mod RoundTrip
pub mod Settled
pub mod Asked
pub mod AskedLoops
pub mod AskedMethods
pub mod AskedContent
