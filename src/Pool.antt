-- ===== src/Pool.antt =====
-- src/reactor/EventloopPool.h and EventloopPool.cpp: the choice of an event loop.
pub mod Defs
pub mod Choice
pub mod Starting
pub mod Handshake
pub mod Progress
mod Tests
mod StartTests
