-- ===== src/Queue/Nats.antt =====
-- queue/nats: the driver over NATS JetStream. The server and its key-value store are parameters.
pub mod Message
pub mod Protocol
pub mod Redelivery
pub mod Producer
pub mod Delay
pub mod Delivery
pub mod Consume
pub mod Bucket
mod Examples
