-- ===== src/Poll.antt =====
-- src/reactor/EventHandler.h, EventHandler.cpp, Poll.h, PollSelect.h and PollSelect.cpp: the
-- handlers of the file descriptors and the multiplexer over `select`.
pub mod Handler
pub mod Select
pub mod Table
pub mod Calls
pub mod Entries
pub mod Waiting
pub mod Ready
mod Tests
