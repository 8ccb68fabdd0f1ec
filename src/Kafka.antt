-- ===== src/Kafka.antt =====
-- archive/kafka: the message queue that the archive publishes to.
pub mod Payload
pub mod Key
pub mod Producer
pub mod Delivery
