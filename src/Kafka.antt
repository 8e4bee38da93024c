-- ===== src/Kafka.antt =====
-- kafka/: the configuration of connections, the loop of the consumer, and the producer.
pub mod Config
pub mod Construction
pub mod Consumer
pub mod Delivery
pub mod Producer
