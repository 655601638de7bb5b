-- ===== src/Workers.antt =====
-- src/util/ThreadPool.h and ThreadPool.cpp: threads that run the tasks of a BlockingQueue.
pub mod Defs
pub mod Order
pub mod Once
mod Tests
