-- ===== src/Blocking.antt =====
-- src/util/BlockingQueue.h: a bounded queue between threads.
pub mod Defs
pub mod Waiting
pub mod Progress
mod Tests
