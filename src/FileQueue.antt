-- ===== src/FileQueue.antt =====
-- The file-based message queue: include/partitioned_queue.h and src/partitioned_queue.cpp (Producer),
-- include/queue_consumer.h and src/queue_consumer.cpp (Consumer), over the files that they share.
pub mod Disk
pub mod Producer
pub mod Consumer
pub mod Stores
pub mod Recovery
pub mod Delivery
pub mod Gap
pub mod Torn
mod Tests
