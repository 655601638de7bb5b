-- ===== src/Thread.antt =====
-- src/util/Thread.h and Thread.cpp: a thread and the one that starts it.
pub mod Defs
pub mod Race
mod Tests
