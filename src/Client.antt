-- ===== src/Client.antt =====
-- src/reactor/Client.h and Client.cpp: a client with its connector and its connection.
pub mod Defs
pub mod Closing
mod Tests
