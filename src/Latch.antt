-- ===== src/Latch.antt =====
-- src/util/CountDownLatch.h and CountDownLatch.cpp, with Mutex.h and Condition.h.
pub mod Defs
pub mod Open
mod Tests
