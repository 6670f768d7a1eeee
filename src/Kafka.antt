-- ===== src/Kafka.antt =====
-- src/kafka_producer.cpp and src/kafka_consumer.cpp over librdkafka, which is a parameter: what a
-- producer of that library does, and what `consume` returns.
pub mod Producer
pub mod Consumer
mod Tests
