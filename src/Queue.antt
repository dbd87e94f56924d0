-- ===== src/Queue.antt =====
-- The package queue: jobs, producers and consumers over a driver (queue/*.go).
pub mod Options
pub mod Observer
pub mod Consumer
pub mod Retry
pub mod Nats
pub mod Producer
pub mod Asynq
