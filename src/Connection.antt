-- ===== src/Connection.antt =====
-- src/reactor/Connection.h and Connection.cpp: one TCP connection in its event loop.
pub mod Defs
pub mod Sending
pub mod Draining
pub mod Life
pub mod States
mod Tests
