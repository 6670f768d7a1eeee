-- ===== src/EventLoop.antt =====
-- src/event_loop.h and src/event_loop.cpp: the class EventLoop.
pub mod Table
pub mod Framing
pub mod Loop
pub mod Run
mod Tests
